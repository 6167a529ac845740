-- ===== src/Client/Outcome/Methods.antt =====
-- Each of the preparing methods of `IoUring` in pysrc/century_ring/ring.py has such an outcome.
use century_ring.Common.{
  ℕ, ◌<◌, ◌^◌, ◌≡◌, refl, Bool, true, false, Option, none, some, List, [], ◌∷◌, inl, inr, get_elem?,
  Option-cases,
}
use century_ring.Common.Int.{ℤ, pos}
use century_ring.Platform.{Crates, Platform}
use century_ring.Platform.Laws.{CrateLaws, PlatformLaws}
use century_ring.Prep.Outcome.{Asking, Prepares-asks}
use century_ring.Prep.Outcome.Functions
use century_ring.Common.Exec.{Exec, ◌>>=◌}
use century_ring.Client.State.{unsigned, int, object, World}
use century_ring.Client.Files
use century_ring.Client.Files.{raw_open_flags}
use century_ring.Client.Network
use century_ring.Client.Network.{socket_type}
use century_ring.OpenFlags.{FileOpenFlag}
use century_ring.OpenFlags.Order.{enum_flags_to_int_flags-bits}
use century_ring.Client.Methods.{
  Method, prep_openat, prep_close, prep_read, prep_write, prep_create_socket, prep_connect_v4,
  prep_connect_v6, prep_recv, prep_send, call_method,
}
use century_ring.Client.Requests.{Asks, open_flags, type_with_flags}
use century_ring.Client.Outcome.{
  MethodOutcome, HasOutcome, Finishes, unwrap, draw, guard, find_directory, prepare, prepare_plain,
  prepare_and_mark, dangling,
}
use century_ring.Client.Outcome.Arguments.{signed_argument, unsigned_argument}

raw_open_flags-eq : (flags : Option (List FileOpenFlag)) → raw_open_flags flags ≡ open_flags flags
unfolding raw_open_flags
raw_open_flags-eq none = refl
raw_open_flags-eq (some []) = refl
raw_open_flags-eq (some (f ∷ flags)) = enum_flags_to_int_flags-bits (f ∷ flags)

socket_type-eq :
    (type : ℤ) (nonblocking : Bool)
    → socket_type type nonblocking ≡ type_with_flags type nonblocking
unfolding socket_type
socket_type-eq type false = refl
socket_type-eq type true = refl

module _ {R : Type 0} ⦃c : Crates⦄ ⦃p : Platform R⦄ (claws : CrateLaws) (laws : PlatformLaws R)
    (w : World R) (small : w.process.ring.user_data_counter < 2 ^ 64) where
  -- the user data crosses into Rust unchanged
  convert_user_data :
      (asks : Asking) (rest : ℕ → Exec (World R) ℕ)
      → Finishes laws asks w (rest w.process.ring.user_data_counter)
      → Finishes laws asks w (unsigned 64 (pos w.process.ring.user_data_counter) >>= rest)
  unfolding ◌>>=◌
  convert_user_data asks rest h = record {
    gives = λ s same.
        rw (claws.unsigned_fits 64 w.process.ring.user_data_counter small) (h.gives s same);
  }

  method-HasOutcome :
      (method : Method) → HasOutcome laws (Asks method w.store) w (call_method method)
  unfolding call_method Files.prep_read Files.prep_write Files.prep_openat Files.prep_close
      Network.prep_create_socket Network.prep_connect_v4 Network.prep_connect_v6 Network.prep_recv
      Network.prep_send
  method-HasOutcome (prep_read fd byte_count offset sqe_flags) = guard laws _ w _ _ _ (
      draw laws _ w _ (
        unwrap laws _ w fd λ file is. signed_argument claws laws _ w _ _ _ λ fits.
          unsigned_argument claws laws _ w _ _ λ n counted.
            signed_argument claws laws _ w _ _ _ λ from. convert_user_data _ _ (
              unsigned_argument claws laws _ w _ _ λ x flags. prepare laws _ w _ (
                Prepares-asks laws _ _
                  (λ e content asked. (file, n, x, (is, fits), counted, from, flags, asked))
                  (Functions.ioring_prep_read-Prepares laws _ _ file n offset x)))))
  method-HasOutcome (prep_write fd bytes file_offset count buffer_offset sqe_flags) =
      guard laws _ w _ _ _ (
        draw laws _ w _ (
          unwrap laws _ w fd λ file is. signed_argument claws laws _ w _ _ _ λ fits.
            unsigned_argument claws laws _ w _ _ λ size sized.
              unsigned_argument claws laws _ w _ _ λ from first.
                signed_argument claws laws _ w _ _ _ λ at_offset. convert_user_data _ _ (
                  unsigned_argument claws laws _ w _ _ λ x flags. prepare laws _ w _ (
                    Prepares-asks laws _ _
                      (λ e content asked.
                        (file, size, from, x, (is, fits), sized, first, at_offset, flags, asked))
                      (Functions.ioring_prep_write-Prepares laws _ _ file bytes size from
                        file_offset x)))))
  method-HasOutcome (prep_openat relative_to path open_mode flags permissions sqe_flags) =
      rw (raw_open_flags-eq flags) (
        find_directory laws _ w relative_to _ λ dir is. draw laws _ w _ (
          signed_argument claws laws _ w _ _ _ λ fits. convert_user_data _ _ (
            signed_argument claws laws _ w _ _ _ λ flags_fit.
              unsigned_argument claws laws _ w _ _ λ mode permitted.
                unsigned_argument claws laws _ w _ _ λ x entry_flags. prepare laws _ w _ (
                  Prepares-asks laws _ _
                    (λ e content asked.
                      (dir, mode, x, is, fits, flags_fit, permitted, entry_flags, asked))
                    (Functions.ioring_prep_openat-Prepares laws _ _ dir path _ mode x)))))
  method-HasOutcome (prep_create_socket domain type protocol nonblocking sqe_flags) =
      rw (socket_type-eq type nonblocking) (
        draw laws _ w _ (
          signed_argument claws laws _ w _ _ _ λ domain_fits.
            signed_argument claws laws _ w _ _ _ λ type_fits.
              signed_argument claws laws _ w _ _ _ λ protocol_fits. convert_user_data _ _ (
                unsigned_argument claws laws _ w _ _ λ x flags. prepare laws _ w _ (
                  Prepares-asks laws _ _
                    (λ e content asked. (x, domain_fits, type_fits, protocol_fits, flags, asked))
                    (Functions.ioring_prep_create_socket-Prepares laws _ _ domain _ protocol x)))))
  method-HasOutcome (prep_connect_v4 fd address port sqe_flags) = draw laws _ w _ (
      unwrap laws _ w fd λ file is. signed_argument claws laws _ w _ _ _ λ fits.
        unsigned_argument claws laws _ w _ _ λ raw_port ported. convert_user_data _ _ (
          unsigned_argument claws laws _ w _ _ λ x flags. prepare laws _ w _ (
            Prepares-asks laws _ _
              (λ e content asked. (file, raw_port, x, (is, fits), ported, flags, asked))
              (Functions.ioring_prep_connect_v4-Prepares laws _ _ file address raw_port x))))
  method-HasOutcome (prep_connect_v6 fd address port sqe_flags) = draw laws _ w _ (
      unwrap laws _ w fd λ file is. signed_argument claws laws _ w _ _ _ λ fits.
        unsigned_argument claws laws _ w _ _ λ raw_port ported. convert_user_data _ _ (
          unsigned_argument claws laws _ w _ _ λ x flags. prepare laws _ w _ (
            Prepares-asks laws _ _
              (λ e content asked. (file, raw_port, x, (is, fits), ported, flags, asked))
              (Functions.ioring_prep_connect_v6-Prepares laws _ _ file address raw_port x))))
  method-HasOutcome (prep_recv fd byte_count flags sqe_flags) = draw laws _ w _ (
      unwrap laws _ w fd λ file is. signed_argument claws laws _ w _ _ _ λ fits.
        unsigned_argument claws laws _ w _ _ λ n counted.
          signed_argument claws laws _ w _ _ _ λ flags_fit. convert_user_data _ _ (
            unsigned_argument claws laws _ w _ _ λ x entry_flags. prepare laws _ w _ (
              Prepares-asks laws _ _
                (λ e content asked.
                  (file, n, x, (is, fits), counted, flags_fit, entry_flags, asked))
                (Functions.ioring_prep_recv-Prepares laws _ _ file n flags x))))
  method-HasOutcome (prep_send fd bytes count buffer_offset flags sqe_flags) = draw laws _ w _ (
      unwrap laws _ w fd λ file is. signed_argument claws laws _ w _ _ _ λ fits.
        unsigned_argument claws laws _ w _ _ λ size sized.
          unsigned_argument claws laws _ w _ _ λ from first.
            signed_argument claws laws _ w _ _ _ λ flags_fit. convert_user_data _ _ (
              unsigned_argument claws laws _ w _ _ λ x entry_flags. prepare laws _ w _ (
                Prepares-asks laws _ _
                  (λ e content asked.
                    (file, size, from, x, (is, fits), sized, first, flags_fit, entry_flags, asked))
                  (Functions.ioring_prep_send-Prepares laws _ _ file bytes size from flags x))))
  method-HasOutcome (prep_close (int fd) sqe_flags) = draw laws _ w _ (
      unwrap laws _ w (int fd) λ file is. signed_argument claws laws _ w _ _ _ λ fits.
        convert_user_data _ _ (
          unsigned_argument claws laws _ w _ _ λ x flags. prepare_plain laws _ w fd _ (
            Prepares-asks laws _ _ (λ e content asked. (file, x, (is, fits), flags, asked))
              (Functions.ioring_prep_close-Prepares laws _ _ file x))))
  method-HasOutcome (prep_close (object ref) sqe_flags) =
      draw laws _ w _ (elim (Option-cases (get_elem? w.store.handles ref)) [
        | inl missing ↦ dangling laws _ w ref _ missing
        | inr (h, there) ↦ unwrap laws _ w (object ref) λ file is.
            signed_argument claws laws _ w _ _ _ λ fits. convert_user_data _ _ (
              unsigned_argument claws laws _ w _ _ λ x flags.
                prepare_and_mark laws _ w ref _ there (
                  Prepares-asks laws _ _ (λ e content asked. (file, x, (is, fits), flags, asked))
                    (Functions.ioring_prep_close-Prepares laws _ _ file x)))
      ])

  pub method_outcomes :
      (method : Method)
      → MethodOutcome laws (Asks method w.store) w (call_method method w).0 (call_method method w).1
  method_outcomes method = (method-HasOutcome method).outcome
