-- ===== src/Broker/Loops.antt =====
-- The loops over the subscribers in `publish` and `close`: on distinct open channels they do not
-- panic, and what they do to each channel.
use libvirt_rest_api.Base.{
  ℕ, ◌≡◌, refl, true, false, ◌&&◌, List, [], ◌∷◌, some, arith, elem, IsDistinct, update,
  if◌then◌else◌,
}
use libvirt_rest_api.Channel.{Channel, push, shut, has_room, close}
use libvirt_rest_api.Broker.{LifecycleEvent, deliver, close_each}

abbrev pub Channels : Type 0
Channels = ℕ → Channel LifecycleEvent

-- A subscriber with room gets the event; another is closed.
abbrev pub offered : Channel LifecycleEvent → LifecycleEvent → Channel LifecycleEvent
offered c event = if has_room c then push c event else shut c

abbrev pub AreOpen : List ℕ → Channels → Type 0
AreOpen subscribers channels = (j : ℕ) → elem j subscribers ≡ true → (channels j).is_open ≡ true

pub record Delivered (event : LifecycleEvent) (subscribers : List ℕ) (channels : Channels)
    : Type 0 where
  pub after : Channels
  pub kept : List ℕ
  pub done : deliver event subscribers channels ≡ some (after, kept)
  pub each :
      (j : ℕ) → after j ≡ (if elem j subscribers then offered (channels j) event else channels j)
  pub stays : (j : ℕ) → elem j kept ≡ elem j subscribers && has_room (channels j)
  pub distinct : IsDistinct kept

module _ (event : LifecycleEvent) (i : ℕ) (rest : List ℕ) (channels : Channels) where
  abbrev first_offered : Channels
  first_offered = update channels i (offered (channels i) event)

  AreOpen-rest : elem i rest ≡ false → AreOpen (i ∷ rest) channels → AreOpen rest first_offered
  AreOpen-rest new o j m = ground (arith, o j)

  Delivered-cons :
      elem i rest ≡ false
      → (channels i).is_open ≡ true
      → Delivered event rest first_offered
      → Delivered event (i ∷ rest) channels
  unfolding deliver close
  Delivered-cons new o later = record {
    after = later.after;
    kept = if has_room (channels i) then i ∷ later.kept else later.kept;
    done = ground (arith, later.done);
    each = λ j. ground (arith, later.each j);
    stays = λ j. ground (arith, later.stays j);
    distinct = ground (arith, later.stays i, later.distinct);
  }

-- Distinct open channels: the loop of `publish` ends without a panic.
pub deliver-Delivered :
    (event : LifecycleEvent) (subscribers : List ℕ) (channels : Channels)
    → IsDistinct subscribers
    → AreOpen subscribers channels
    → Delivered event subscribers channels
unfolding deliver
deliver-Delivered event [] channels d o = record {
  after = channels;
  kept = [];
  done = refl;
  each = λ j. refl;
  stays = λ j. refl;
  distinct = tt;
}
deliver-Delivered event (i ∷ rest) channels d o =
    Delivered-cons event i rest channels d.0 (o i (ground arith))
      (deliver-Delivered event rest _ d.1 (AreOpen-rest event i rest channels d.0 o))

-- The loop of `close`: every subscriber's channel is closed, and no other.
pub close_each_lem :
    (subscribers : List ℕ) (channels : Channels)
    → IsDistinct subscribers
    → AreOpen subscribers channels
    → (after : Channels) × (close_each subscribers channels ≡ some after)
      × ((j : ℕ) → after j ≡ (if elem j subscribers then shut (channels j) else channels j))
unfolding close_each close
close_each_lem [] channels d o = (channels, refl, λ j. refl)
close_each_lem (i ∷ rest) channels d o =
    let (after, done, each) =
      close_each_lem rest (update channels i (shut (channels i))) d.1
        (λ j m. ground (arith, o j)) in
    (after, ground (arith, o i), λ j. ground (arith, each j))
