-- ===== src/Hypervisor/Within.antt =====
-- The operations that a computation asks of the binding, for internal/hypervisor/libvirt.go.
use libvirt_rest_api.Base.{
  ◌≡◌, refl, sym, ap, ◌∙◌, Bool, true, false, List, [], ◌∷◌, ◌++◌, All, All-append, append_assoc,
  append-nil, if◌then◌else◌,
}
use libvirt_rest_api.Errors.{Error, Result, ok, err}
use libvirt_rest_api.Hypervisor.{Op, Binding, L, ◌>>=◌, pure, request, or_return}

-- The operations after `old`, all of them of the kind.
pub record Asked (C : Op → Type 0) (old ops : List Op) : Type 0 where
  pub made : List Op
  pub history : ops ≡ old ++ made
  pub allowed : All C made

pub record Within (C : Op → Type 0) {A : Type 0} (m : L A) : Type 0 where
  pub within : (old : List Op) → Asked C old (m old).1

Asked-none : (C : Op → Type 0) (old : List Op) → Asked C old old
Asked-none C old = record { made = []; history = sym (append-nil old); allowed = tt }

Asked-both :
    (C : Op → Type 0) (old middle ops : List Op)
    → Asked C old middle
    → Asked C middle ops
    → Asked C old ops
Asked-both C old middle ops first next = record {
  made = first.made ++ next.made;
  history =
      next.history
      ∙ (ap (λ earlier. earlier ++ next.made) first.history
          ∙ append_assoc old first.made next.made);
  allowed = All-append C first.made next.made first.allowed next.allowed;
}

module _ {C : Op → Type 0} where
  pub Within-pure : {A : Type 0} (a : A) → Within C (pure a)
  Within-pure a = record { within = λ old. Asked-none C old }

  pub Within-request : (binding : Binding) (op : Op) → C op → Within C (request binding op)
  Within-request binding op h = record {
    within = λ old. record { made = op ∷ []; history = refl; allowed = (h, tt) };
  }

  pub Within-bind :
      {A B : Type 0} {m : L A} {k : A → L B}
      → Within C m
      → ((a : A) → Within C (k a))
      → Within C (m >>= k)
  unfolding ◌>>=◌
  Within-bind {m} {k} first next = record {
    within = λ old.
        Asked-both C old (m old).1 (k (m old).0 (m old).1).1 (first.within old)
          ((next (m old).0).within (m old).1);
  }

  pub Within-if :
      {A : Type 0} (test : Bool) {m n : L A}
      → Within C m
      → Within C n
      → Within C (if test then m else n)
  Within-if true first second = first
  Within-if false first second = second

  pub Within-or_return :
      {A B : Type 0} (context : Error → Error) (result : Result A) {next : A → L (Result B)}
      → ((a : A) → Within C (next a))
      → Within C (or_return context result next)
  Within-or_return context (ok a) h = h a
  Within-or_return context (err e) h = Within-pure (err _)
