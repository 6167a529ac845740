-- ===== src/Helpers.antt =====
-- pysrc/century_ring/helpers.py
use century_ring.Common.{ℕ, Bool, if◌then◌else◌}
use century_ring.Common.Int.{abs, is_negative}
use century_ring.Common.Exec.{Result, ok, err, os_error}
use century_ring.Platform.{Crates}
use century_ring.Prep.Flags.{make_uring_flags}
use century_ring.Ring.State.{CompletionEvent}

unfoldable pub raise_for_cqe : CompletionEvent → Result Unit
raise_for_cqe cqe = if is_negative cqe.result then err (os_error (abs cqe.result)) else ok tt

unfoldable pub make_sqe_flags : ⦃c : Crates⦄ → Bool → Bool → Bool → Bool → Bool → Bool → Bool → ℕ
unfolding make_uring_flags
make_sqe_flags fixed_file io_drain io_link io_hardlink io_async buffer_select skip_success =
    make_uring_flags fixed_file io_drain io_link io_hardlink io_async buffer_select skip_success
