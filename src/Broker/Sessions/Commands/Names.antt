-- ===== src/Broker/Sessions/Commands/Names.antt =====
-- No session gives a box an array of its own for its name.
use so_ii.Prelude.{ℕ, refl, Bool, true, false, List, [], ◌∷◌, some, inr, ltb, ℤ, pos, eq_ℤ}
use so_ii.Fs.Operations.{Pthread, tfs_open, tfs_close, tfs_read, tfs_unlink, is_nonneg}
use so_ii.Broker.{box_name_size, max_msg_size}
use so_ii.Broker.Keeps
use so_ii.Broker.Keeps.{Keeps, keeps, exited, waiting, faulty}
use so_ii.Broker.Sessions.{Client, Image}
use so_ii.Broker.Sessions.Commands
use so_ii.Broker.Sessions.Steps.{
  Steady, copy_name-fault, choose-Steady, require-Steady, c_string-Steady, call-Steady,
  set_box-Steady, open_pipe-Steady, check_boxes-Steady, publish-Steady, forget-Steady,
  subscribe-Steady, new_box-Steady, write_all-Steady, check_sessions-Steady,
}

module _ (pthread : Pthread) where
  publisher-Steady : (c : Client) → Steady (Commands.publisher pthread c)
  unfolding Commands.publisher
  publisher-Steady c b u = Keeps.bind (check_boxes-Steady b.num_active_box 0 b u) λ _ b1 u1.
      Keeps.bind (open_pipe-Steady c b1 u1) λ _ b2 u2.
        Keeps.bind (set_box-Steady b2.num_active_box _ (λ x _. inr refl) _ u2) λ _ b3 u3.
          Keeps.bind (c_string-Steady (λ b. b.box_name) box_name_size _ u3) λ name b4 u4.
            Keeps.bind (call-Steady (tfs_open pthread (some name) 4) b4 u4) λ z b5 u5.
              Keeps.bind (require-Steady (is_nonneg z) b5 u5)
                λ _ b6 u6. publish-Steady c.reads b6 u6

  read_msg-Steady : (fhandle : ℤ) → Steady (Commands.read_msg pthread fhandle)
  unfolding Commands.read_msg
  read_msg-Steady fhandle b u =
      Keeps.bind (call-Steady (tfs_read pthread fhandle max_msg_size) b u)
        λ reply b1 u1. require-Steady (is_nonneg reply.0) _ u1

  deliver-Steady :
      (fhandle : ℤ) (ws : List Bool) (buf : ℕ → ℕ)
      → Steady (Commands.deliver pthread fhandle ws buf)
  unfolding Commands.deliver
  deliver-Steady fhandle [] buf b u = waiting
  deliver-Steady fhandle (false ∷ ws) buf b u = keeps u
  deliver-Steady fhandle (true ∷ ws) buf b u = Keeps.bind (read_msg-Steady fhandle _ u) λ _ b1 u1.
      Keeps.bind (c_string-Steady (λ b. b.msg) max_msg_size b1 u1)
        λ text b2 u2. deliver-Steady fhandle ws _ b2 u2

  subscriber-Steady : (c : Client) → Steady (Commands.subscriber pthread c)
  unfolding Commands.subscriber
  subscriber-Steady c b u = Keeps.bind (open_pipe-Steady c b u) λ _ b1 u1.
      Keeps.bind (subscribe-Steady b1.num_active_box 0 _ u1) λ _ b2 u2.
        Keeps.bind (choose-Steady b2.tester (λ _ u. keeps u) new_box-Steady b2 u2) λ _ b3 u3.
          Keeps.bind (c_string-Steady (λ b. b.box_name) box_name_size b3 u3) λ name b4 u4.
            Keeps.bind (call-Steady (tfs_open pthread (some name) 4) b4 u4) λ z b5 u5.
              Keeps.bind (require-Steady (is_nonneg z) b5 u5) λ _ b6 u6.
                Keeps.bind (read_msg-Steady z b6 u6) λ _ b7 u7.
                  Keeps.bind (c_string-Steady (λ b. b.msg) max_msg_size b7 u7) λ text b8 u8.
                    Keeps.bind (deliver-Steady z c.writes _ b8 u8) λ _ b9 u9.
                      Keeps.bind (call-Steady (tfs_close pthread z) b9 u9) λ _ b10 u10. keeps u10

  creator-Steady : (c : Client) → Steady (Commands.creator pthread c)
  unfolding Commands.creator Commands.opened_box
  creator-Steady c b u = Keeps.bind (open_pipe-Steady c b u) λ _ b2 u2.
      Keeps.bind (c_string-Steady (λ b. b.box_name) box_name_size _ u2) λ name b4 u4.
        Keeps.bind (call-Steady (tfs_open pthread (some name) 1) b4 u4) λ z b5 u5.
          Keeps.bind
            (choose-Steady (is_nonneg z)
              (λ b u. rw (copy_name-fault b.num_active_box b (u b.num_active_box)) faulty)
              (λ _ u. keeps u) b5 u5)
            λ buf b6 u6.
              Keeps.bind (write_all-Steady c.writes _ _ b6 u6)
                λ _ b7 u7. Keeps.bind (call-Steady (tfs_close pthread z) b7 u7) λ _ b8 u8. keeps u8

  remover-Steady : (stack : ℕ → ℕ) (c : Client) → Steady (Commands.remover pthread stack c)
  unfolding Commands.remover
  remover-Steady stack c b u = Keeps.bind (open_pipe-Steady c b u) λ _ b2 u2.
      Keeps.bind (c_string-Steady (λ b. b.box_name) box_name_size _ u2) λ name b4 u4.
        Keeps.bind (call-Steady (tfs_unlink pthread (some name)) b4 u4) λ z b5 u5.
          Keeps.bind (choose-Steady (is_nonneg z) (λ _ u. keeps u) (λ _ u. keeps u) b5 u5)
            λ _ b6 u6. Keeps.bind (write_all-Steady c.writes _ _ b6 u6) λ _ b7 u7.
              Keeps.bind (call-Steady (tfs_close pthread z) b7 u7)
                λ _ b8 u8. forget-Steady b8.num_active_box 0 _ u8

  lister-Steady :
      (stack : ℕ → ℕ) (image : ℕ → Image) (c : Client)
      → Steady (Commands.lister pthread stack image c)
  unfolding Commands.lister
  lister-Steady stack image c b u = Keeps.bind (open_pipe-Steady c b u) λ _ b2 u2.
      choose-Steady (ltb 1 b2.num_active_box) (write_all-Steady c.writes _ _) (λ _ u. keeps u) _ u2

  dispatch-Steady :
      (stack : ℕ → ℕ) (image : ℕ → Image) (c : Client) (op : ℤ)
      → Steady (Commands.dispatch pthread stack image c op)
  unfolding Commands.dispatch
  dispatch-Steady stack image c op = choose-Steady (eq_ℤ op (pos 1)) (publisher-Steady c) (
      choose-Steady (eq_ℤ op (pos 2)) (subscriber-Steady c) (
        choose-Steady (eq_ℤ op (pos 3)) (creator-Steady c) (
          choose-Steady (eq_ℤ op (pos 5)) (remover-Steady stack c)
            (choose-Steady (eq_ℤ op (pos 7)) (lister-Steady stack image c) λ _ u. keeps u))))

  pub session-Steady :
      (stack : ℕ → ℕ) (image : ℕ → Image) (c : Client)
      → Steady (Commands.session pthread stack image c)
  unfolding Commands.session
  session-Steady stack image c b u =
      Keeps.bind (check_sessions-Steady b.num_active_sessions 0 b u)
        λ _ b' w. dispatch-Steady stack image c b'.op_code b' w
