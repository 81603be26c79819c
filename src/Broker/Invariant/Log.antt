-- ===== src/Broker/Invariant/Log.antt =====
-- `publish` keeps the counter, the history and the cursors in step with the log.
use libvirt_rest_api.Base.{
  ℕ, suc, ◌+◌, ◌-◌, ◌^◌, ◌≤◌, ◌<◌, ◌≡◌, refl, false, ◌⊎◌, inl, inr, List, [], ◌∷◌, ◌++◌, arith,
  length, length-append, length-drop, take, take-append-drop, append_assoc, All-append, ltb,
  Bool-cases, ltb→lt,
}
use libvirt_rest_api.Broker.{LifecycleEvent, EventBroker, history_limit, u64, cursor, stamp, trim}
use libvirt_rest_api.Broker.Loops.{Channels}
use libvirt_rest_api.Broker.Streams.{Follows, Follows-append}
use libvirt_rest_api.Broker.Invariant.Defs.{HasLog}

trim_lem :
    (older history : List LifecycleEvent) (e : LifecycleEvent)
    → length history ≤ history_limit
    → (older ≡ []) ⊎ (length history ≡ history_limit)
    → (older' : List LifecycleEvent) × ((older ++ history) ++ e ∷ []
        ≡ older' ++ trim (history ++ e ∷ []))
      × (length (trim (history ++ e ∷ [])) ≤ history_limit)
      × ((older' ≡ []) ⊎ (length (trim (history ++ e ∷ [])) ≡ history_limit))
unfolding trim
trim_lem older history e short full =
    let more = history ++ e ∷ [] in
    let excess = length more - history_limit in
    elim (Bool-cases (ltb history_limit (length more))) [
      | inl over ↦ (
        older ++ take excess more,
        rw over (simp (append_assoc, take-append-drop)),
        rw over (omega (arith, length-drop excess more, ltb→lt _ _ over)),
        inr (rw over (omega (arith, length-drop excess more, ltb→lt _ _ over))),
      )
      | inr under ↦ (
        older,
        rw under (append_assoc older history (e ∷ [])),
        rw under (ground arith),
        rw under (ground (arith, length-append history (e ∷ []))),
      )
    ]

module _ {b : EventBroker} {log : List LifecycleEvent} (h : HasLog b log) (e : LifecycleEvent)
    (now : ℕ) (plain : e.stream_reset ≡ false) (room : suc b.next_id < 2 ^ 64) where
  stamp-Follows : Follows b.next_id (stamp b e now ∷ []) (u64 (b.next_id + 1))
  unfolding stamp
  stamp-Follows = (omega arith, plain, omega arith)

  stamp-named : (stamp b e now).cursor ≡ cursor b.generation (stamp b e now).id
  unfolding stamp
  stamp-named = refl

  pub stamp-HasLog :
      (subscribers : List ℕ) (channels : Channels)
      → HasLog
          (record b {
            next_id = u64 (b.next_id + 1);
            history = trim (b.history ++ stamp b e now ∷ []);
            subscribers = subscribers;
            channels = channels;
          })
          (log ++ stamp b e now ∷ [])
  stamp-HasLog subscribers channels =
      let (older, kept, short, full) = trim_lem h.older b.history (stamp b e now) h.short h.full in
      record {
        small = omega arith;
        clean = h.clean;
        numbered = Follows-append 0 b.next_id _ log _ h.numbered stamp-Follows;
        named = All-append _ log _ h.named (stamp-named, tt);
        older = older;
        kept = rw (h.kept) kept;
        short = short;
        full = full;
      }
