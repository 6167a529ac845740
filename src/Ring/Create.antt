-- ===== src/Ring/Create.antt =====
-- src/ring.rs: `create_io_ring`.
use century_ring.Common.{
  ℕ, Bool, true, ◌&&◌, ◌||◌, Option, none, some, [], ltb, leb, ◌==◌, if◌then◌else◌,
}
use century_ring.Common.Exec.{
  Result, ok, err, value_error, os_error, kernel_unsupported, panic, entries_zero,
}
use century_ring.Platform.{Opcode, BuildOptions, IoResult, done, failed, Crates, Platform}
use century_ring.Ring.State.{TheIoRing}

-- the arguments of `create_io_ring`
pub record CreateArgs : Type 0 where
  pub entries : ℕ
  pub cq_entries : ℕ
  pub sqlpoll_idle_ms : ℕ
  pub single_issuer : Bool
  pub autosubmit : Bool

-- 5.18 where the version cannot be read
abbrev pub or_oldest : Option (ℕ × ℕ) → ℕ × ℕ
or_oldest none = (5, 18)
or_oldest (some v) = v

unfoldable pub is_too_old : ℕ × ℕ → Bool
is_too_old (major, minor) = ltb major 5 || ltb major 6 && ltb minor 18

-- the calls of the builder
unfoldable pub build_options : ℕ × ℕ → CreateArgs → BuildOptions
build_options (major, minor) a = record {
  entries = a.entries;
  dontfork = true;
  submit_all = true;
  single_issuer = leb 6 major && a.single_issuer;
  sqpoll = if ltb 0 a.sqlpoll_idle_ms then some a.sqlpoll_idle_ms else none;
  cqsize = if ltb a.entries a.cq_entries then some a.cq_entries else none;
}

module _ {R : Type 0} ⦃c : Crates⦄ ⦃p : Platform R⦄ where
  abbrev pub new_ring : R → Bool → (Opcode → Bool) → TheIoRing R
  new_ring r autosubmit probe = record {
    the_io_uring = some r;
    probe = probe;
    user_data_counter = 0;
    autosubmit = autosubmit;
    owned_data = [];
  }

  abbrev pub with_probe : R → Bool → IoResult (Opcode → Bool) → Result (TheIoRing R)
  with_probe r autosubmit (failed errno) = err (os_error errno)
  with_probe r autosubmit (done probe) = ok (new_ring r autosubmit probe)

  abbrev pub with_built : Bool → IoResult R → Result (TheIoRing R)
  with_built autosubmit (failed errno) = err (os_error errno)
  with_built autosubmit (done r) =
      if p.is_feature_nodrop r then with_probe r autosubmit (p.register_probe r) else err panic

  unfoldable pub create_io_ring : CreateArgs → Result (TheIoRing R)
  unfolding is_too_old build_options
  create_io_ring a =
      let version = or_oldest c.kernel_version in
      if a.entries == 0
      then err (value_error entries_zero)
      else if is_too_old version
      then err (kernel_unsupported version.0 version.1)
      else with_built a.autosubmit (p.build (build_options version a))
