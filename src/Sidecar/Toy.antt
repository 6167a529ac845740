-- ===== src/Sidecar/Toy.antt =====
-- An event loop that can be run: the numbers of the instruments that are installed.
use century_ring.Common.{
  ℕ, suc, ◌≡◌, refl, Bool, true, false, not, ◌||◌, ◌&&◌, ◌==◌, if◌then◌else◌, arith,
}
use century_ring.Common.Exec.{Error, Result, ok, err, raised_by_caller}
use century_ring.Sidecar.Host.{AsyncHost, AsyncHostLaws}

pub record ToyHost : Type 0 where
  pub made : ℕ
  pub installed : ℕ → Bool

-- a KeyError
abbrev pub key_error : Error
key_error = raised_by_caller 0

abbrev pub toy_remove : ℕ → ToyHost → Result (Unit {0}) × ToyHost
toy_remove i e =
    if e.installed i
    then (ok tt, record e { installed = λ j. not (j == i) && e.installed j })
    else (err key_error, e)

instance abbrev pub toy_host : AsyncHost ToyHost
toy_host = record {
  new_object = λ e. (e.made, record e { made = suc e.made });
  add_instrument = λ i e. record e { installed = λ j. j == i || e.installed j };
  remove_instrument = toy_remove;
  create_task_group = λ e. (e.made, record e { made = suc e.made });
  start_soon = λ g e. e;
  cancel = λ g e. e;
  exit_group = λ g x e. (x, e);
}

pub add_installs : (i : ℕ) (b : Bool) → (i == i || b) ≡ true
add_installs i b = ground arith

pub remove_removes :
    (i : ℕ) (e : ToyHost) → e.installed i ≡ true → (toy_remove i e).1.installed i ≡ false
remove_removes i e h = ground arith

abbrev pub toy_host_laws : AsyncHostLaws ToyHost
toy_host_laws = record {
  installed = λ e i. e.installed i;
  add_installs = λ i e. add_installs i (e.installed i);
  remove_removes = remove_removes;
  group_keeps = λ i e. refl;
  start_keeps = λ g i e. refl;
  cancel_keeps = λ g i e. refl;
  exit_keeps = λ g i x e. refl;
}
