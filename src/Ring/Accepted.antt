-- ===== src/Ring/Accepted.antt =====
-- `create_io_ring` of src/ring.rs: what it accepts.
use century_ring.Common.{
  ℕ, ◌≤◌, ◌<◌, ◌≡◌, ◌⊎◌, ◌↔◌, refl, Bool, true, false, [], none, some, arith, ◌==◌, inl, inr,
  Bool-cases,
}
use century_ring.Common.Exec.{
  Result, ok, err, value_error, kernel_unsupported, entries_zero, panic, os_error,
}
use century_ring.Platform.{Opcode, BuildOptions, IoResult, done, failed, Crates, Platform}
use century_ring.Ring.State.{TheIoRing}
use century_ring.Ring.Create.{
  CreateArgs, create_io_ring, with_built, with_probe, or_oldest, is_too_old, build_options,
}

-- 5.18 or later
abbrev pub IsSupported : ℕ × ℕ → Type 0
IsSupported (major, minor) = (5 < major) ⊎ ((major ≡ 5) × (18 ≤ minor))

abbrev pub IsOld : ℕ × ℕ → Type 0
IsOld (major, minor) = (major < 5) ⊎ ((major ≡ 5) × (minor < 18))

-- What the arguments ask the builder for on this kernel: always not to be inherited by a fork and to
-- submit all entries; a single issuer only from 6.0 on; a polling thread if there is an idle time;
-- and a completion queue of its own size only if that is larger than the submission queue.
pub record IsAsked (version : ℕ × ℕ) (a : CreateArgs) (o : BuildOptions) : Type 0 where
  pub size : o.entries ≡ a.entries
  pub not_forked : o.dontfork ≡ true
  pub submits_all : o.submit_all ≡ true
  pub single : (o.single_issuer ≡ true) ↔ ((6 ≤ version.0) × (a.single_issuer ≡ true))
  pub polled :
      ((a.sqlpoll_idle_ms ≡ 0) × (o.sqpoll ≡ none))
      ⊎ ((0 < a.sqlpoll_idle_ms) × (o.sqpoll ≡ some a.sqlpoll_idle_ms))
  pub completions :
      ((a.cq_entries ≤ a.entries) × (o.cqsize ≡ none))
      ⊎ ((a.entries < a.cq_entries) × (o.cqsize ≡ some a.cq_entries))

build_options-IsAsked :
    (version : ℕ × ℕ) (a : CreateArgs) → IsAsked version a (build_options version a)
unfolding build_options
build_options-IsAsked version a = record {
  size = refl;
  not_forked = refl;
  submits_all = refl;
  single = ground arith;
  polled = ground arith;
  completions = ground arith;
}

module _ {R : Type 0} ⦃c : Crates⦄ ⦃p : Platform R⦄ where
  -- a new ring object around what `build` gave: probed, its counter at zero, without owned data
  pub record IsCreated (a : CreateArgs) (o : BuildOptions) (ring : TheIoRing R) (r : R)
      : Type 0 where
    pub built : p.build o ≡ done r
    pub holds : ring.the_io_uring ≡ some r
    pub nodrop : p.is_feature_nodrop r ≡ true
    pub probed : p.register_probe r ≡ done ring.probe
    pub from_zero : ring.user_data_counter ≡ 0
    pub owns_none : ring.owned_data ≡ []
    pub autosubmits : ring.autosubmit ≡ a.autosubmit

  -- what became of an accepted request
  pub data BuildOutcome (a : CreateArgs) (o : BuildOptions) : Result (TheIoRing R) → Type 0 where
    not_built : {errno : ℕ} → p.build o ≡ failed errno → BuildOutcome a o (err (os_error errno))
    no_nodrop :
        {r : R} → p.build o ≡ done r → p.is_feature_nodrop r ≡ false → BuildOutcome a o (err panic)
    not_probed :
        {r : R} {errno : ℕ}
        → p.build o ≡ done r
        → p.register_probe r ≡ failed errno
        → BuildOutcome a o (err (os_error errno))
    created : {ring : TheIoRing R} {r : R} → IsCreated a o ring r → BuildOutcome a o (ok ring)

  with_probe-BuildOutcome :
      (a : CreateArgs) (o : BuildOptions) (r : R) (x : IoResult (Opcode → Bool))
      → p.build o ≡ done r
      → p.is_feature_nodrop r ≡ true
      → p.register_probe r ≡ x
      → BuildOutcome a o (with_probe r a.autosubmit x)
  with_probe-BuildOutcome a o r (failed errno) built keeps probed = not_probed built probed
  with_probe-BuildOutcome a o r (done probe) built keeps probed = created (record {
    built = built;
    holds = refl;
    nodrop = keeps;
    probed = probed;
    from_zero = refl;
    owns_none = refl;
    autosubmits = refl;
  })

  with_built-BuildOutcome :
      (a : CreateArgs) (o : BuildOptions) (x : IoResult R)
      → p.build o ≡ x
      → BuildOutcome a o (with_built a.autosubmit x)
  with_built-BuildOutcome a o (failed errno) built = not_built built
  with_built-BuildOutcome a o (done r) built = elim (Bool-cases (p.is_feature_nodrop r)) [
    | inl keeps ↦ rw keeps (with_probe-BuildOutcome a o r (p.register_probe r) built keeps refl)
    | inr drops ↦ rw drops (no_nodrop built drops)
  ]

  -- Exactly one of these: zero entries, a ValueError; entries, but a kernel before 5.18, refused with
  -- its version; or entries and a kernel from 5.18 on, and then the ring is built with the options
  -- that the arguments and the kernel call for, and given, probed, with its counter at zero and
  -- nothing owned, unless the build or the probe fails, an OSError, or the kernel may drop
  -- completions, a panic.
  pub create_io_ring_outcomes :
      (a : CreateArgs)
      → let version = or_oldest c.kernel_version in
        ((a.entries ≡ 0) × (create_io_ring {R = R} a ≡ err (value_error entries_zero)))
        ⊎ ((0 < a.entries)
            × IsOld version
            × (create_io_ring {R = R} a ≡ err (kernel_unsupported version.0 version.1)))
        ⊎ ((0 < a.entries)
            × IsSupported version
            × ((o : BuildOptions) × IsAsked version a o × BuildOutcome a o (create_io_ring a)))
  unfolding create_io_ring is_too_old
  create_io_ring_outcomes a =
      let version = or_oldest c.kernel_version in
      let o = build_options version a in
      elim (Bool-cases (a.entries == 0)) [
        | inl none_asked ↦ inl (ground arith, rw none_asked refl)
        | inr asked ↦ elim (Bool-cases (is_too_old version)) [
          | inl old ↦ inr (inl (ground arith, ground (arith, old), rw asked (rw old refl)))
          | inr supported ↦ inr (
              inr (
                ground arith,
                ground (arith, supported),
                (
                  o,
                  build_options-IsAsked version a,
                  rw asked (rw supported (with_built-BuildOutcome a o (p.build o) refl)),
                ),
              ))
        ]
      ]
