-- ===== src/Broker/Cursor.antt =====
-- `cursor` and `afterCursor`: what a client sends back as Last-Event-ID.
use libvirt_rest_api.Base.{
  ℕ, ◌^◌, ◌≤◌, ◌<◌, ◌≡◌, refl, ◌≢◌, Bool, true, false, not, ◌||◌, List, [], ◌∷◌, ◌++◌, Option, none,
  some, arith, ltb, if◌then◌else◌, Text, text_eq, text_eq_iff, text_eq_refl, cut, cut-append,
  has_byte, format_uint, parse_uint, parse_uint-format_uint, has_byte-format_uint,
  has_byte-hex_encode, ◌⊎◌,
}
use libvirt_rest_api.Broker.{EventBroker, cursor, after_cursor, new_event_broker}

-- A generation is read up to the first colon.
abbrev pub HasNoColon : Text → Type 0
HasNoColon generation = has_byte b':' generation ≡ false

pub new_event_broker-HasNoColon :
    (random : Option (List ℕ)) (now : ℕ) → HasNoColon (new_event_broker random now).generation
unfolding new_event_broker
new_event_broker-HasNoColon none now = has_byte-format_uint b':' now 36 (omega arith) (omega arith)
new_event_broker-HasNoColon (some bytes) now =
    has_byte-hex_encode b':' bytes (omega arith) (omega arith)

-- The rest of `afterCursor`, once the cursor is cut.
after_cut : EventBroker → Text × Text × Bool → ℕ × Bool
after_cut b (generation, sequence, found) =
    if not found || not (text_eq generation b.generation)
    then (0, true)
    else (elim (parse_uint 64 sequence) [
      | none ↦ (0, true)
      | some after ↦ if ltb b.next_id after then (0, true) else (after, false)
    ])

after_cursor-ne-nil :
    (b : EventBroker) (s : Text) → s ≢ [] → after_cursor b s ≡ after_cut b (cut b':' s)
unfolding after_cursor after_cut
after_cursor-ne-nil b [] h = absurd (h refl)
after_cursor-ne-nil b (c ∷ s) h = refl

append-ne-nil : (s : Text) (c : ℕ) (t : Text) → s ++ c ∷ t ≢ []
append-ne-nil [] c t = ground arith
append-ne-nil (a ∷ s) c t = ground arith

-- A cursor of any broker's making, read by this one.
after_cursor-cut :
    (b : EventBroker) (generation : Text) (id : ℕ)
    → HasNoColon generation
    → after_cursor b (cursor generation id) ≡ after_cut b (generation, format_uint id 10, true)
unfolding cursor
after_cursor-cut b generation id clean =
    rw
      (after_cursor-ne-nil b (generation ++ b':' ∷ format_uint id 10)
        (append-ne-nil generation _ _))
      (rw (cut-append b':' generation (format_uint id 10) clean))

-- The cursor of an event that this broker has sent names that event again.
pub after_cursor-cursor :
    (b : EventBroker) (id : ℕ)
    → HasNoColon b.generation
    → b.next_id < 2 ^ 64
    → id ≤ b.next_id
    → after_cursor b (cursor b.generation id) ≡ (id, false)
unfolding after_cut
after_cursor-cursor b id clean small known =
    rw (after_cursor-cut b b.generation id clean)
      (ground (arith, text_eq_refl b.generation, parse_uint-format_uint 64 id (omega arith)))

-- A cursor of another generation, and one from the future, are refused.
pub after_cursor_foreign :
    (b : EventBroker) (generation : Text) (id : ℕ)
    → HasNoColon generation
    → id < 2 ^ 64
    → (generation ≢ b.generation) ⊎ (b.next_id < id)
    → after_cursor b (cursor generation id) ≡ (0, true)
unfolding after_cut
after_cursor_foreign b generation id clean small other =
    rw (after_cursor-cut b generation id clean)
      (ground (arith, text_eq_iff generation b.generation, parse_uint-format_uint 64 id small))

-- Whatever the client sends, an accepted position is one that the broker has reached.
pub after_cursor-le :
    (b : EventBroker) (s : Text) {after : ℕ} → after_cursor b s ≡ (after, false) → after ≤ b.next_id
unfolding after_cursor
after_cursor-le b [] h = ground arith
after_cursor-le b (c ∷ s) h = ground arith
