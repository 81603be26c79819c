-- ===== src/Broker/Replay.antt =====
-- What a new subscriber finds in its channel: the rest of the log, or a reset notice.
use libvirt_rest_api.Base.{
  ℕ, suc, ◌+◌, ◌^◌, ◌≤◌, ◌<◌, ◌≡◌, refl, sym, ap, Bool, true, false, ◌||◌, Text, ◌⊎◌, inl, inr,
  List, [], ◌∷◌, ◌++◌, arith, length, take, drop, take-append-drop, append-nil, ltb, Bool-cases,
  select,
}
use libvirt_rest_api.Broker.{
  LifecycleEvent, EventBroker, after_cursor, has_gap, reset_notice, history_limit, backlog,
}
use libvirt_rest_api.Broker.Streams.{
  Follows-split, Follows-rest, Follows-select, Follows, Follows-length, Stream,
}
use libvirt_rest_api.Broker.Invariant.Defs.{HasLog}

select-append :
    (p : LifecycleEvent → Bool) (es fs : List LifecycleEvent)
    → select p (es ++ fs) ≡ select p es ++ select p fs
unfolding select
select-append p [] fs = refl
select-append p (e ∷ es) fs = ground (arith, select-append p es fs)

length-select-le :
    (p : LifecycleEvent → Bool) (es : List LifecycleEvent) → length (select p es) ≤ length es
unfolding select
length-select-le p [] = omega arith
length-select-le p (e ∷ es) = ground (arith, length-select-le p es)

select_earlier :
    (a b after : ℕ) (es : List LifecycleEvent)
    → Follows a es b
    → b ≤ after
    → select (λ event. ltb after event.id) es ≡ []
unfolding select
select_earlier a b after [] h k = refl
select_earlier a b after (e ∷ es) h k =
    ground (arith, select_earlier (suc a) b after es h.2, Follows-length (suc a) b es h.2)

-- Nothing that the history has lost comes after the position.
older-le :
    (older history : List LifecycleEvent) (after last : ℕ)
    → last < 2 ^ 64
    → Follows 0 (older ++ history) last
    → has_gap history after ≡ false
    → (older ≡ []) ⊎ (length history ≡ history_limit)
    → length older ≤ after
unfolding has_gap
older-le older [] after last small h gap full = ground arith
older-le older (e ∷ es) after last small h gap full =
    let (_, rest) = Follows-split 0 last older (e ∷ es) h in
    ground (arith, Follows-length (suc (length older)) last es)

-- A run that reaches back to the event after the position has no gap, a shorter one has.
has_gap_near :
    (a last after : ℕ) (history : List LifecycleEvent)
    → last < 2 ^ 64
    → Follows a history last
    → last ≤ after + length history
    → has_gap history after ≡ false
unfolding has_gap
has_gap_near a last after [] small h near = refl
has_gap_near a last after (e ∷ es) small h near = ground (arith, Follows-length (suc a) last es h.2)

has_gap_far :
    (a last after : ℕ) (history : List LifecycleEvent)
    → last < 2 ^ 64
    → Follows a history last
    → (a ≡ 0) ⊎ (length history ≡ history_limit)
    → after + length history < last
    → has_gap history after ≡ true
unfolding has_gap
has_gap_far a last after [] small h full far = absurd (omega arith)
has_gap_far a last after (e ∷ es) small h full far =
    ground (arith, Follows-length (suc a) last es h.2)

module _ {b : EventBroker} {log : List LifecycleEvent} (h : HasLog b log) where
  open h use {older, kept, numbered}

  history_of_log : Follows 0 (older ++ b.history) b.next_id
  history_of_log = rw (← kept) numbered

  pub length-log : length log ≡ b.next_id
  length-log = omega (arith, Follows-length 0 b.next_id log numbered)

  history-Follows : Follows (length older) b.history b.next_id
  history-Follows = Follows-rest b.next_id older b.history history_of_log

  pub no_gap : (after : ℕ) → b.next_id ≤ after + length b.history → has_gap b.history after ≡ false
  no_gap after near =
      has_gap_near (length older) b.next_id after b.history h.small history-Follows near

  pub gap : (after : ℕ) → after + length b.history < b.next_id → has_gap b.history after ≡ true
  gap after far =
      has_gap_far (length older) b.next_id after b.history h.small history-Follows
        (ground (arith, h.full)) far

  -- With no gap the events of the history after the position are those of the whole log.
  select-log :
      (after : ℕ)
      → has_gap b.history after ≡ false
      → select (λ event. ltb after event.id) b.history ≡ drop after log
  select-log after gap =
      let (earlier, _) = Follows-split 0 b.next_id older b.history history_of_log in
      let low = older-le older b.history after b.next_id h.small history_of_log gap h.full in
      let later = λ (event : LifecycleEvent). ltb after event.id in
      cc (
        select-append later older b.history,
        select_earlier 0 _ after older earlier (omega arith),
        ap (select later) kept,
        Follows-select 0 b.next_id after after log numbered (omega arith),
      )

  -- A position that can be replayed: the channel starts with exactly the events after it.
  pub backlog-drop :
      (position : Text) (now after : ℕ)
      → after_cursor b position ≡ (after, false)
      → has_gap b.history after ≡ false
      → backlog b position now ≡ drop after log
  unfolding backlog
  backlog-drop position now after read gap = rw (read, gap) (select-log after gap)

  pub backlog_reset :
      (position : Text) (now : ℕ)
      → (after_cursor b position).1 || has_gap b.history (after_cursor b position).0 ≡ true
      → backlog b position now ≡ reset_notice b now ∷ []
  unfolding backlog
  backlog_reset position now lost = rw lost

  reset_notice-Stream : (now : ℕ) → Stream log (reset_notice b now ∷ []) true
  unfolding reset_notice
  reset_notice-Stream now = record {
    notice = reset_notice b now ∷ [];
    before = log;
    seen = [];
    missed = [];
    whole = sym (append-nil log);
    got = refl;
    told = inr (reset_notice b now, refl, refl, sym length-log);
    in_step = λ _. refl;
  }

  drop-Stream : (n : ℕ) → Stream log (drop n log) true
  drop-Stream n = record {
    notice = [];
    before = take n log;
    seen = drop n log;
    missed = [];
    whole = simp (append-nil, take-append-drop);
    got = refl;
    told = inl refl;
    in_step = λ _. refl;
  }

  pub backlog-Stream : (position : Text) (now : ℕ) → Stream log (backlog b position now) true
  backlog-Stream position now =
      let read = after_cursor b position in
      elim (Bool-cases (read.1 || has_gap b.history read.0)) [
        | inl lost ↦ rw (backlog_reset position now lost) (reset_notice-Stream now)
        | inr fine ↦
            rw (backlog-drop position now read.0 (ground arith) (ground arith)) (drop-Stream read.0)
      ]

  pub length-backlog-le :
      (position : Text) (now : ℕ) → length (backlog b position now) ≤ length b.history + 33
  unfolding backlog
  length-backlog-le position now =
      ground (arith, length-select-le (λ event. ltb (after_cursor b position).0 event.id) b.history)
