-- ===== src/Protocol/RoundTrip/Lookups.antt =====
-- What a message holds after the printed fields have been set in it.
use share_note_pad.Base.{
  ℕ, ◌≡◌, refl, ap, ◌∙◌, false, Option, some, none, List, [], ◌∷◌, ◌++◌, arith, Text, if◌then◌else◌,
  text_eq_iff, Bool-cases, inl, inr,
}
use share_note_pad.Protocol.Codec.{is_common_field}
use share_note_pad.Protocol.Fields.{Fields, lookup, IsSorted, lookup-Above}
use share_note_pad.Protocol.Message.{
  ProtocolMessage, set_string, set_number, get_string, get_number, get_string-set_string,
  get_number-set_number, get_number-set_string, get_string-set_number,
}
use share_note_pad.Protocol.RoundTrip.Items.{Item, set_item, set_items}
use share_note_pad.Protocol.RoundTrip.Printed.{string_items, number_items}

-- A new value, or the one before.
abbrev pub over {ℓ} : {A : Type ℓ} → Option A → Option A → Option A
over none before = before
over (some a) before = some a

pub over-none {ℓ} : {A : Type ℓ} (o : Option A) → over o none ≡ o
over-none none = refl
over-none (some a) = refl

pub set_items-append :
    (xs ys : List Item) (m : ProtocolMessage)
    → set_items m (xs ++ ys) ≡ set_items (set_items m xs) ys
unfolding set_items
set_items-append [] ys m = refl
set_items-append (i ∷ xs) ys m = set_items-append xs ys (set_item m i)

-- The three members are set by their own keys alone.
pub record SameHead (m m' : ProtocolMessage) : Type 0 where
  pub type : m'.type ≡ m.type
  pub session : m'.session ≡ m.session
  pub client : m'.client ≡ m.client

SameHead-set_string :
    (k v : Text) (m : ProtocolMessage) → is_common_field k ≡ false → SameHead m (set_string k v m)
unfolding set_string is_common_field
SameHead-set_string k v m h = ground arith

pub SameHead-string_items :
    (fs : Fields Text) (m : ProtocolMessage) → SameHead m (set_items m (string_items fs))
unfolding string_items set_items set_item
SameHead-string_items [] m = record { type = refl; session = refl; client = refl }
SameHead-string_items ((k, v) ∷ fs) m = elim (Bool-cases (is_common_field k)) [
  | inl common ↦ rw common (SameHead-string_items fs m)
  | inr other ↦
      let now = SameHead-set_string k v m other in
      let later = SameHead-string_items fs (set_string k v m) in
      rw other (record {
        type = later.type ∙ now.type;
        session = later.session ∙ now.session;
        client = later.client ∙ now.client;
      })
]

pub SameHead-number_items :
    (fs : Fields ℕ) (m : ProtocolMessage) → SameHead m (set_items m (number_items fs))
unfolding number_items set_items set_item set_number
SameHead-number_items [] m = record { type = refl; session = refl; client = refl }
SameHead-number_items ((k, n) ∷ fs) m =
    let later = SameHead-number_items fs (set_number k n m) in
    record { type = later.type; session = later.session; client = later.client }

pub get_string-string_items :
    (j : Text) (fs : Fields Text) (m : ProtocolMessage)
    → IsSorted fs
    → get_string j (set_items m (string_items fs))
      ≡ (if is_common_field j then get_string j m else over (lookup j fs) (get_string j m))
unfolding string_items set_items set_item lookup
get_string-string_items j [] m s = ground arith
get_string-string_items j ((k, v) ∷ fs) m s = elim (Bool-cases (is_common_field k)) [
  | inl common ↦ rw common (
      get_string-string_items j fs m s.1
      ∙ ground (arith, text_eq_iff k j, ap is_common_field {x = k} {y = j}))
  | inr other ↦ rw other (
      get_string-string_items j fs (set_string k v m) s.1
      ∙ ground (arith, text_eq_iff k j, get_string-set_string k j v m, lookup-Above k fs s.0))
]

pub get_number-number_items :
    (j : Text) (fs : Fields ℕ) (m : ProtocolMessage)
    → IsSorted fs
    → get_number j (set_items m (number_items fs)) ≡ over (lookup j fs) (get_number j m)
unfolding number_items set_items set_item lookup
get_number-number_items j [] m s = refl
get_number-number_items j ((k, n) ∷ fs) m s =
    get_number-number_items j fs (set_number k n m) s.1
    ∙ ground (arith, text_eq_iff k j, get_number-set_number k j n m, lookup-Above k fs s.0)

pub get_number-string_items :
    (j : Text) (fs : Fields Text) (m : ProtocolMessage)
    → get_number j (set_items m (string_items fs)) ≡ get_number j m
unfolding string_items set_items set_item
get_number-string_items j [] m = refl
get_number-string_items j ((k, v) ∷ fs) m = elim (Bool-cases (is_common_field k)) [
  | inl common ↦ rw common (get_number-string_items j fs m)
  | inr other ↦
      rw other (get_number-string_items j fs (set_string k v m) ∙ get_number-set_string k j v m)
]

pub get_string-number_items :
    (j : Text) (fs : Fields ℕ) (m : ProtocolMessage)
    → get_string j (set_items m (number_items fs)) ≡ get_string j m
unfolding number_items set_items set_item
get_string-number_items j [] m = refl
get_string-number_items j ((k, n) ∷ fs) m =
    get_string-number_items j fs (set_number k n m) ∙ get_string-set_number k j n m
