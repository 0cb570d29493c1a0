-- ===== src/Queue/Fifo.antt =====
-- The queue is a list of at most `pcq_capacity` elements, first in, first out.
use so_ii.Prelude.{
  ℕ, zero, suc, ◌+◌, ◌-◌, ◌%◌, ◌^◌, ◌≤◌, ◌<◌, ◌≡◌, ◌≢◌, ◌∙◌, refl, sym, ap, List, [], ◌∷◌, ◌++◌,
  arith, pos, minus_one, length, length-append, get_or, some, ◌⊎◌, ltb, if◌then◌else◌, ◌==◌, true,
  false, update, update_self, update_ne, inl, inr, set,
}
use native.Mathlib.Nat.{mod-eq_of_lt, mod_self}
use native.Mathlib.Decide.{dec_lt, ℕ_discrete}
use so_ii.Queue.{
  Queue, returned, asleep, next_index, put, pop, pcq_create, pcq_enqueue, pcq_dequeue,
}

-- The place of element `i` in a ring of `c` places, the first of which is `h`.
abbrev pub place : (h i c : ℕ) → ℕ
place h i c = if ltb (h + i) c then h + i else h + i - c

-- The queue holds the elements `xs`.
pub record IsFifo (q : Queue) (xs : List ℕ) : Type 0 where
  pub nonempty : 0 < q.pcq_capacity
  pub small : q.pcq_capacity < 2 ^ 60
  pub buffer : q.pcq_buffer.size ≡ q.pcq_capacity
  pub count : q.pcq_current_size ≡ length xs
  pub bounded : length xs ≤ q.pcq_capacity
  pub head : q.pcq_head < q.pcq_capacity
  pub tail : q.pcq_tail ≡ place q.pcq_head (length xs) q.pcq_capacity
  pub elements :
      (i : ℕ) → i < length xs → q.pcq_buffer.at (place q.pcq_head i q.pcq_capacity) ≡ get_or xs i 0

next_place : (i c : ℕ) → i < c → c < 2 ^ 60 → (i + 1) % 2 ^ 64 % c ≡ place i 1 c
next_place i c h small =
    ap (λ (x : ℕ). x % c) (mod-eq_of_lt {n = i + 1} {m = 2 ^ 64} (omega arith))
    ∙ elim (dec_lt (i + 1) c) [
      | yes inside ↦ mod-eq_of_lt {n = i + 1} {m = c} inside ∙ ground arith
      | no end ↦
          let e : i + 1 ≡ c = omega arith in ap (λ (x : ℕ). x % c) e ∙ mod_self c ∙ ground arith
    ]

get_or-append_old :
    (xs : List ℕ) (x i : ℕ) → i < length xs → get_or (xs ++ (x ∷ [])) i 0 ≡ get_or xs i 0
get_or-append_old [] x i h = absurd (omega arith)
get_or-append_old (y ∷ xs) x zero h = refl
get_or-append_old (y ∷ xs) x (suc i) h = get_or-append_old xs x i (omega arith)

get_or-append_new : (xs : List ℕ) (x : ℕ) → get_or (xs ++ (x ∷ [])) (length xs) 0 ≡ x
get_or-append_new [] x = refl
get_or-append_new (y ∷ xs) x = get_or-append_new xs x

module _ {q : Queue} {xs : List ℕ} (v : IsFifo q xs) where
  next_tail :
      length xs < q.pcq_capacity
      → next_index q q.pcq_tail ≡ place q.pcq_head (length xs + 1) q.pcq_capacity
  unfolding next_index
  next_tail room =
      next_place q.pcq_tail q.pcq_capacity (ground (arith, v.tail, v.head)) v.small
      ∙ ground (arith, v.tail, v.head)

  next_head : next_index q q.pcq_head ≡ place q.pcq_head 1 q.pcq_capacity
  unfolding next_index
  next_head = next_place q.pcq_head q.pcq_capacity v.head v.small

  -- The queue after an element has been put.
  abbrev pub put_state : ℕ → Queue
  put_state elem = record q {
    pcq_buffer = set q.pcq_buffer q.pcq_tail elem;
    pcq_current_size = q.pcq_current_size + 1;
    pcq_tail = next_index q q.pcq_tail;
  }

  put_element :
      (elem : ℕ)
      → length xs < q.pcq_capacity
      → (i : ℕ) → i < length xs + 1
      → update q.pcq_buffer.at q.pcq_tail elem (place q.pcq_head i q.pcq_capacity)
        ≡ get_or (xs ++ (elem ∷ [])) i 0
  put_element elem room i h = elim (ℕ_discrete i (length xs)) [
    | yes last ↦
        let there : place q.pcq_head i q.pcq_capacity ≡ q.pcq_tail = ground (arith, v.tail, last) in
        rw there (update_self q.pcq_buffer.at q.pcq_tail elem)
        ∙ sym (ap (λ (k : ℕ). get_or (xs ++ (elem ∷ [])) k 0) last ∙ get_or-append_new xs elem)
    | no other ↦
        let elsewhere : q.pcq_tail ≢ place q.pcq_head i q.pcq_capacity =
          ground (arith, v.tail, v.head, other) in
        update_ne q.pcq_buffer.at q.pcq_tail elem (place q.pcq_head i q.pcq_capacity) elsewhere
        ∙ v.elements i (omega arith)
        ∙ sym (get_or-append_old xs elem i (omega arith))
  ]

  pub put-IsFifo :
      (elem : ℕ) → length xs < q.pcq_capacity → IsFifo (put_state elem) (xs ++ (elem ∷ []))
  put-IsFifo elem room =
      let l = length-append xs (elem ∷ []) in
      record {
        nonempty = v.nonempty;
        small = v.small;
        buffer = v.buffer;
        count = omega (arith, v.count, l);
        bounded = omega (arith, l);
        head = v.head;
        tail = rw l (next_tail room);
        elements = λ i h. put_element elem room i (omega (arith, l));
      }

-- Element `i` of the rest is element `i + 1` of the whole.
rest_place : (h i c : ℕ) → h < c → i + 1 < c + 1 → place (place h 1 c) i c ≡ place h (i + 1) c
rest_place h i c low small = ground arith

module _ {q : Queue} {x : ℕ} {xs : List ℕ} (v : IsFifo q (x ∷ xs)) where
  pub first-element : q.pcq_buffer.at q.pcq_head ≡ x
  first-element = ap q.pcq_buffer.at (ground (arith, v.head)) ∙ v.elements 0 (omega arith)

  -- The queue after its first element has been taken.
  abbrev pub pop_state : Queue
  pop_state = record q {
    pcq_current_size = q.pcq_current_size - 1;
    pcq_head = next_index q q.pcq_head;
  }

  pub pop-IsFifo : IsFifo pop_state xs
  pop-IsFifo =
      let e = next_head v in
      record {
        nonempty = v.nonempty;
        small = v.small;
        buffer = v.buffer;
        count = omega (arith, v.count);
        bounded = omega (arith, v.bounded);
        head = ground (arith, e, v.head);
        tail =
            v.tail
            ∙ sym (
                ap (λ (k : ℕ). place k (length xs) q.pcq_capacity) e
                ∙ rest_place q.pcq_head (length xs) q.pcq_capacity v.head (omega (arith, v.bounded))
                ∙ ap (λ (k : ℕ). place q.pcq_head k q.pcq_capacity) (omega arith));
        elements = λ i h.
            ap (λ (k : ℕ). q.pcq_buffer.at (place k i q.pcq_capacity)) e
            ∙ ap q.pcq_buffer.at
                (rest_place q.pcq_head i q.pcq_capacity v.head (omega (arith, v.bounded)))
            ∙ (let s : i + 1 ≡ suc i = omega arith in
                ap (λ (k : ℕ). q.pcq_buffer.at (place q.pcq_head k q.pcq_capacity)) s
                ∙ v.elements (suc i) (omega arith));
      }

-- For a queue that holds `xs`: NULL is refused with -1 and the queue stays; any other element puts
-- the caller to sleep if the queue is full, and otherwise `pcq_enqueue` returns 0 and the queue holds
-- `xs` and then the element.
pub pcq_enqueue_lem :
    {q : Queue} {xs : List ℕ} (elem : ℕ)
    → IsFifo q xs
    → ((elem ≡ 0) × (pcq_enqueue elem q ≡ returned minus_one q))
      ⊎ ((elem ≢ 0) × (length xs ≡ q.pcq_capacity) × (pcq_enqueue elem q ≡ asleep q))
      ⊎ ((elem ≢ 0)
          × (q' : Queue) × (pcq_enqueue elem q ≡ returned (pos 0) q')
          × IsFifo q' (xs ++ (elem ∷ []))
          × (length xs < q.pcq_capacity))
unfolding pcq_enqueue put
pcq_enqueue_lem {q} {xs} elem v = elim (ℕ_discrete elem 0) [
  | yes null' ↦ inl (null', ground (arith, null'))
  | no pointer ↦
      let is_pointer : (elem == 0) ≡ false = ground (arith, pointer) in
      elim (ℕ_discrete (length xs) q.pcq_capacity) [
        | yes full ↦
            let is_full : (q.pcq_current_size == q.pcq_capacity) ≡ true =
              ground (arith, v.count, full) in
            inr (inl (pointer, full, rw (is_pointer, is_full) refl))
        | no room ↦
            let not_full : (q.pcq_current_size == q.pcq_capacity) ≡ false =
              ground (arith, v.count, room) in
            let fits : length xs < q.pcq_capacity = omega (arith, v.bounded) in
            let exists : (q.pcq_capacity == 0) ≡ false = ground (arith, v.nonempty) in
            let inside : ltb q.pcq_tail q.pcq_buffer.size ≡ true =
              ground (arith, v.tail, v.head, v.buffer, fits) in
            let count : (q.pcq_current_size + 1) % 2 ^ 64 ≡ q.pcq_current_size + 1 =
              mod-eq_of_lt {n = q.pcq_current_size + 1} {m = 2 ^ 64}
                (omega (arith, v.count, v.small)) in
            inr (
              inr (
                pointer,
                put_state v elem,
                rw (is_pointer, not_full, exists, inside, count) refl,
                put-IsFifo v elem fits,
                fits,
              ))
      ]
]

-- For a queue that holds a list: if it is empty the caller falls asleep, and otherwise `pcq_dequeue`
-- returns its first element, and the queue holds the rest.
pub pcq_dequeue_lem :
    {q : Queue} {xs : List ℕ}
    → IsFifo q xs
    → ((xs ≡ []) × (pcq_dequeue q ≡ asleep q))
      ⊎ ((x : ℕ) × (rest : List ℕ) × (q' : Queue) × (xs ≡ x ∷ rest)
          × (pcq_dequeue q ≡ returned x q')
          × IsFifo q' rest)
unfolding pcq_dequeue pop
pcq_dequeue_lem {xs = []} v = inl (refl, rw v.count refl)
pcq_dequeue_lem {q} {xs = x ∷ xs} v =
    let some' : (q.pcq_current_size == 0) ≡ false = ground (arith, v.count) in
    let exists : (q.pcq_capacity == 0) ≡ false = ground (arith, v.nonempty) in
    let inside : ltb q.pcq_head q.pcq_buffer.size ≡ true = ground (arith, v.head, v.buffer) in
    let count : (q.pcq_current_size + 2 ^ 64 - 1) % 2 ^ 64 ≡ q.pcq_current_size - 1 =
      omega (arith, v.count, v.small, v.bounded) in
    let first : q.pcq_buffer.at q.pcq_head ≡ x =
      ap q.pcq_buffer.at (ground (arith, v.head)) ∙ v.elements 0 (omega arith) in
    inr (x, xs, pop_state v, refl, rw (some', exists, inside, count, first) refl, pop-IsFifo v)

-- For a capacity that is not 0 and fits the address space, and memory from `malloc`: `pcq_create`
-- returns 0 and makes a queue that holds nothing.
pub pcq_create_lem :
    (q : Queue) (capacity : ℕ) (memory : ℕ → ℕ)
    → 0 < capacity
    → capacity < 2 ^ 60
    → ((pcq_create (some memory) capacity q).0 ≡ pos 0)
      × IsFifo ((pcq_create (some memory) capacity q).1) []
unfolding pcq_create
pcq_create_lem q capacity memory nonempty small =
    let not_zero : (capacity == 0) ≡ false = ground (arith, nonempty) in
    rw not_zero (
      refl,
      record {
        nonempty = nonempty;
        small = small;
        buffer = omega arith;
        count = refl;
        bounded = omega arith;
        head = nonempty;
        tail = ground arith;
        elements = λ i h. absurd (omega arith);
      },
    )
