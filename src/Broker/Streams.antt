-- ===== src/Broker/Streams.antt =====
-- What one client has been given, against everything that was published.
use libvirt_rest_api.Base.{
  ℕ, suc, ◌+◌, ◌≤◌, ◌≡◌, refl, Bool, true, false, ◌⊎◌, inl, List, [], ◌∷◌, ◌++◌, arith, sym, length,
  zero, append_assoc, append-nil, ltb, select, drop,
}
use libvirt_rest_api.Broker.{LifecycleEvent}

-- The list holds the events after number `a` up to number `b`, each once and in order.
abbrev pub Follows : ℕ → List LifecycleEvent → ℕ → Type 0
Follows a [] b = a ≡ b
Follows a (e ∷ es) b = (e.id ≡ suc a) × (e.stream_reset ≡ false) × Follows (suc a) es b

pub Follows-append :
    (a b c : ℕ) (es fs : List LifecycleEvent)
    → Follows a es b
    → Follows b fs c
    → Follows a (es ++ fs) c
Follows-append a b c [] fs h k = rw h k
Follows-append a b c (e ∷ es) fs h k = (h.0, h.1, Follows-append (suc a) b c es fs h.2 k)

pub Follows-length : (a b : ℕ) (es : List LifecycleEvent) → Follows a es b → a + length es ≡ b
Follows-length a b [] h = omega arith
Follows-length a b (e ∷ es) h = omega (arith, Follows-length (suc a) b es h.2)

pub Follows-split :
    (a c : ℕ) (es fs : List LifecycleEvent)
    → Follows a (es ++ fs) c
    → Follows a es (a + length es) × Follows (a + length es) fs c
Follows-split a c [] fs h = let e : a ≡ a + 0 = omega arith in (e, rw (← e) h)
Follows-split a c (e ∷ es) fs h =
    let (first, rest) = Follows-split (suc a) c es fs h.2 in
    let same : suc a + length es ≡ a + suc (length es) = omega arith in
    ((h.0, h.1, rw (← same) first), rw (← same) rest)

-- What follows the first events of a log.
pub Follows-rest :
    (c : ℕ) (es fs : List LifecycleEvent) → Follows 0 (es ++ fs) c → Follows (length es) fs c
Follows-rest c es fs h =
    let e : length es ≡ 0 + length es = omega arith in rw e (Follows-split 0 c es fs h).1

select_later :
    (a b after : ℕ) (es : List LifecycleEvent)
    → Follows a es b
    → after ≤ a
    → select (λ event. ltb after event.id) es ≡ es
unfolding select
select_later a b after [] h k = refl
select_later a b after (e ∷ es) h k = ground (arith, select_later (suc a) b after es h.2)

-- The events after number `a + n` of a run from `a` are what is left of it after `n` events.
pub Follows-select :
    (a b n after : ℕ) (es : List LifecycleEvent)
    → Follows a es b
    → after ≡ a + n
    → select (λ event. ltb after event.id) es ≡ drop n es
unfolding select
Follows-select a b zero after es h k = select_later a b after es h (omega arith)
Follows-select a b (suc n) after [] h k = refl
Follows-select a b (suc n) after (e ∷ es) h k =
    ground (arith, Follows-select (suc a) b n after es h.2)

-- The client's stream: perhaps a reset notice, which carries the number of the last event before
-- the rest, and then a run of the log. Nothing is missed while the channel is open.
pub record Stream (log given : List LifecycleEvent) (live : Bool) : Type 0 where
  pub notice : List LifecycleEvent
  pub before : List LifecycleEvent
  pub seen : List LifecycleEvent
  pub missed : List LifecycleEvent
  pub whole : log ≡ before ++ (seen ++ missed)
  pub got : given ≡ notice ++ seen
  pub told :
      (notice ≡ [])
      ⊎ ((n : LifecycleEvent) × (notice ≡ n ∷ [])
          × (n.stream_reset ≡ true)
          × (n.id ≡ length before))
  pub in_step : live ≡ true → missed ≡ []

pub Stream-nothing : (log : List LifecycleEvent) → Stream log [] false
Stream-nothing log = record {
  notice = [];
  before = log;
  seen = [];
  missed = [];
  whole = sym (append-nil log);
  got = refl;
  told = inl refl;
  in_step = λ h. cc;
}

module _ {log given : List LifecycleEvent} where
  -- The channel is closed.
  pub Stream-shut : {live : Bool} → Stream log given live → Stream log given false
  Stream-shut s = record {
    notice = s.notice;
    before = s.before;
    seen = s.seen;
    missed = s.missed;
    whole = s.whole;
    got = s.got;
    told = s.told;
    in_step = λ h. cc;
  }

  -- An event is published and goes into the channel.
  pub Stream-sent :
      (e : LifecycleEvent) → Stream log given true → Stream (log ++ e ∷ []) (given ++ e ∷ []) true
  Stream-sent e s = record {
    notice = s.notice;
    before = s.before;
    seen = s.seen ++ e ∷ [];
    missed = [];
    whole = rw (s.whole, s.in_step refl) (simp (append_assoc, append-nil));
    got = rw (s.got) (append_assoc s.notice s.seen (e ∷ []));
    told = s.told;
    in_step = λ h. refl;
  }

  -- An event is published past a closed channel.
  pub Stream-missed :
      {live : Bool} (e : LifecycleEvent)
      → Stream log given live
      → Stream (log ++ e ∷ []) given false
  Stream-missed e s = record {
    notice = s.notice;
    before = s.before;
    seen = s.seen;
    missed = s.missed ++ e ∷ [];
    whole = rw (s.whole) (simp append_assoc);
    got = s.got;
    told = s.told;
    in_step = λ h. cc;
  }
