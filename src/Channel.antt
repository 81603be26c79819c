-- ===== src/Channel.antt =====
-- Go's buffered channels, one value for each channel. An operation that panics has the result
-- `none`, and so has a send that would wait for room: the broker sends while it holds its mutex.
use libvirt_rest_api.Base.{
  ℕ, ◌+◌, ◌≤◌, ◌≡◌, Bool, true, false, List, [], ◌∷◌, ◌++◌, Option, none, some, arith, length,
  length-append, ltb, if◌then◌else◌, append-nil, append_assoc,
}

pub record Channel {ℓ} (A : Type ℓ) : Type ℓ where
  pub buffer : List A
  pub capacity : ℕ
  pub is_open : Bool

infixl 5 ◌>>=◌
abbrev pub ◌>>=◌ {ℓ κ} : {A : Type ℓ} {B : Type κ} → Option A → (A → Option B) → Option B
none >>= k = none
some a >>= k = k a

module _ {ℓ} {A : Type ℓ} where
  abbrev pub make : ℕ → Channel A
  make capacity = record { buffer = []; capacity = capacity; is_open = true }

  abbrev pub push : Channel A → A → Channel A
  push c a = record c { buffer = c.buffer ++ a ∷ [] }

  abbrev pub shut : Channel A → Channel A
  shut c = record c { is_open = false }

  abbrev pub has_room : Channel A → Bool
  has_room c = ltb (length c.buffer) c.capacity

  -- `channel <- a`: a panic on a closed channel.
  unfoldable pub send : Channel A → A → Option (Channel A)
  send c a = if c.is_open then if has_room c then some (push c a) else none else none

  -- `close(channel)`: a panic on a closed channel.
  unfoldable pub close : Channel A → Option (Channel A)
  close c = if c.is_open then some (shut c) else none

  -- `<-channel` where a value is there. A closed channel still hands out its buffer.
  unfoldable pub receive : Channel A → Option (A × Channel A)
  receive c = elim c.buffer [ [] ↦ none | a ∷ rest ↦ some (a, record c { buffer = rest }) ]

  pub receive_lem :
      (c : Channel A) {a : A} {c' : Channel A}
      → receive c ≡ some (a, c')
      → (c.buffer ≡ a ∷ c'.buffer) × (c'.capacity ≡ c.capacity) × (c'.is_open ≡ c.is_open)
  unfolding receive
  receive_lem c h = ground arith

  -- A run of sends, in order.
  unfoldable pub send_all : Channel A → List A → Option (Channel A)
  unfolding send
  send_all c [] = some c
  send_all c (a ∷ rest) = send c a >>= λ c'. send_all c' rest

  -- Sends that fit into the room of an open channel neither wait nor panic, and append.
  pub send_all_lem :
      (c : Channel A) (values : List A)
      → c.is_open ≡ true
      → length c.buffer + length values ≤ c.capacity
      → send_all c values ≡ some (record c { buffer = c.buffer ++ values })
  unfolding send_all
  send_all_lem c [] o h = rw append-nil
  send_all_lem c (a ∷ rest) o h = ground (
    arith,
    length-append c.buffer (a ∷ []),
    append_assoc c.buffer (a ∷ []) rest,
    send_all_lem (push c a) rest,
  )
