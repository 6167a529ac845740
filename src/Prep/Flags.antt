-- ===== src/Prep/Flags.antt =====
-- src/flags.rs: `make_uring_flags`.
use century_ring.Common.{ℕ, Bool, if◌then◌else◌}
use century_ring.Platform.{
  SqeFlag, fixed_file, io_drain, io_link, io_hardlink, async, buffer_select, skip_success, Crates,
}

module _ ⦃c : Crates⦄ where
  -- `if chosen { flags |= Flags::… }`
  abbrev pub add_if : Bool → SqeFlag → ℕ → ℕ
  add_if chosen f flags = if chosen then c.union flags (c.flag f) else flags

  -- `flags` before `.bits()`
  unfoldable pub chosen_flags : Bool → Bool → Bool → Bool → Bool → Bool → Bool → ℕ
  chosen_flags fixed drain link hardlink force_async select skip = add_if skip skip_success (
      add_if select buffer_select (
        add_if force_async async (
          add_if hardlink io_hardlink
            (add_if link io_link (add_if drain io_drain (add_if fixed fixed_file c.no_flags))))))

  unfoldable pub make_uring_flags : Bool → Bool → Bool → Bool → Bool → Bool → Bool → ℕ
  make_uring_flags fixed drain link hardlink force_async select skip =
      c.bits (chosen_flags fixed drain link hardlink force_async select skip)
