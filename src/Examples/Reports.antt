-- ===== src/Examples/Reports.antt =====
-- JSON as entries in front of entries, and what a reader finds in an announcement of a wire.
use ttyforge.Common.{
  if◌then◌else◌, Bool-cases, codes, text_eq, text_eq_refl, ℕ, ◌≡◌, refl, sym, ap, ◌∙◌, inl, inr,
  Bool, Option, none, some, List, [],
}
use ttyforge.Common.Text.{Text}
use ttyforge.Wire.Float.{scaled}
use ttyforge.Wire.Plan.{WireSpec}
use ttyforge.Status.{Json, wire_map}
use ttyforge.Status.Reported.{HasGet, wire_map-get}

mutual
  pub data Shown : Type 0 where
    shown_null : Shown
    shown_text : Text → Shown
    shown_number : ℕ → Shown
    shown_bool : Bool → Shown
    shown_float : scaled.F → Shown
    shown_texts : List Text → Shown
    shown_object : Entries → Shown

  pub data Entries : Type 0 where
    no_entries : Entries
    entry : Text → Shown → Entries → Entries

abbrev found : Text → Entries → Option Shown
found k no_entries = none
found k (entry k' v m) = let rest = found k m in if text_eq k k' then some v else rest

abbrev in_front : Entries → Entries → Entries
in_front no_entries m = m
in_front (entry k v x) m = entry k v (in_front x m)

abbrev fields : Shown → Option Entries
fields (shown_object m) = some m
fields _ = none

abbrev pub shown_json : Json scaled.F
shown_json = record {
  Value = Shown;
  Map = Entries;
  null = shown_null;
  of_text = shown_text;
  of_number = shown_number;
  of_bool = shown_bool;
  of_float = shown_float;
  of_texts = shown_texts;
  of_map = shown_object;
  as_object = fields;
  millis = λ d. scaled.of_nat d;
  empty = no_entries;
  insert = entry;
  extend = in_front;
  print = λ v. [];
}

some-none : {A : Type 0} {a : A} → some a ≡ none → ⊥
some-none e = cc

found-in_front : (k : Text) (x m : Entries) → found k x ≡ none → found k (in_front x m) ≡ found k m
found-in_front k no_entries m h = refl
found-in_front k (entry k' v x) m h = elim (Bool-cases (text_eq k k')) [
  | inl same_key ↦ absurd (some-none (sym (ap (λ b. if b then some v else found k x) same_key) ∙ h))
  | inr other ↦
      rw other (found-in_front k x m (sym (ap (λ b. if b then some v else found k x) other) ∙ h))
]

shown_json-HasGet : HasGet scaled.F shown_json
shown_json-HasGet = record {
  get = found;
  get_empty = λ k. refl;
  get_same = λ k v m. rw (text_eq_refl k) refl;
  get_other = λ k k' v m h. rw h refl;
  get_extend = found-in_front;
}

abbrev noisy_wire : WireSpec scaled.F
noisy_wire = record {
  baud = some 9_600;
  latency = none;
  jitter = none;
  drop = some scaled.one_f;
  corrupt = none;
  seed = some 42;
}

wire_map-get_example :
    (found (codes "baud_sim") (wire_map shown_json noisy_wire) ≡ some (shown_number 9_600))
    × (found (codes "latency_ms") (wire_map shown_json noisy_wire) ≡ none)
    × (found (codes "jitter_ms") (wire_map shown_json noisy_wire) ≡ none)
    × (found (codes "drop") (wire_map shown_json noisy_wire) ≡ some (shown_float scaled.one_f))
    × (found (codes "corrupt") (wire_map shown_json noisy_wire) ≡ none)
    × (found (codes "seed") (wire_map shown_json noisy_wire) ≡ some (shown_number 42))
unfolding wire_map shown_json-HasGet
wire_map-get_example = wire_map-get shown_json shown_json-HasGet noisy_wire
