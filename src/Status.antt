-- ===== src/Status.antt =====
-- `announce`, `object` and `wire_value` of src/forge/status.rs. The JSON values and maps of
-- serde_json are an interface.
pub mod Reported
use ttyforge.Common.{if◌then◌else◌, codes, drop, ℕ, Bool, Option, none, some, List, [], ◌∷◌}
use ttyforge.Common.Text.{Text}
use ttyforge.Run.{other_error, ok, err, Step}
use ttyforge.Wire.Plan.{WireSpec}

-- serde_json: `json!` on a text, a number, an `f64` and a list of texts, its maps, and printing.
-- Durations in milliseconds are `f64`s of the standard library, from nanoseconds.
pub record Json (F : Type 0) : Type 1 where
  pub Value : Type 0
  pub Map : Type 0
  pub null : Value
  pub of_text : Text → Value
  pub of_number : ℕ → Value
  pub of_bool : Bool → Value
  pub of_float : F → Value
  pub of_texts : List Text → Value
  pub of_map : Map → Value
  pub as_object : Value → Option Map
  pub millis : ℕ → F
  pub empty : Map
  pub insert : Text → Value → Map → Map
  pub extend : Map → Map → Map
  pub print : Value → Text

-- Standard output: `writeln!` of a line, and `flush`.
pub record Stdout (S : Type 0) : Type 0 where
  pub write_line : Text → S → S × Bool
  pub flush : S → S × Bool

-- The lines, then the flush; any of them may fail.
unfoldable pub say : {S : Type 0} → Stdout S → List Text → Step S (Unit {0})
say out [] s = let (s', done) = out.flush s in (s', if done then ok tt else err (other_error ∷ []))
say out (line ∷ lines) s =
    let (s', done) = out.write_line line s in
    let rest = say out lines s' in if done then rest else (s', err (other_error ∷ []))

module _ {F : Type 0} (js : Json F) where
  open js use {
    Value, Map, of_text, of_number, of_float, of_texts, of_map, as_object, millis, empty, insert,
    extend, print,
  }

  -- `if let Some(x) = field { m.insert(key, json!(x)); }`
  unfoldable pub insert_some : {A : Type 0} → Text → (A → Value) → Option A → Map → Map
  insert_some key json none m = m
  insert_some key json (some a) m = insert key (json a) m

  unfoldable pub wire_map : WireSpec F → Map
  unfolding insert_some
  wire_map w =
      let m1 = insert_some (codes "baud_sim") of_number w.baud empty in
      let m2 = insert_some (codes "latency_ms") (λ d. of_float (millis d)) w.latency m1 in
      let m3 = insert_some (codes "jitter_ms") (λ d. of_float (millis d)) w.jitter m2 in
      let m4 = insert_some (codes "drop") of_float w.drop m3 in
      let m5 = insert_some (codes "corrupt") of_float w.corrupt m4 in
      insert_some (codes "seed") of_number w.seed m5

  unfoldable pub wire_value : WireSpec F → Value
  unfolding wire_map
  wire_value w = of_map (wire_map w)

  unfoldable pub extend_object : Option Map → Map → Map
  extend_object none m = m
  extend_object (some extra) m = extend extra m

  -- The map of `object`; the process's id is an argument.
  unfoldable pub object_map : ℕ → Text → List Text → Value → WireSpec F → Map
  unfolding extend_object wire_value
  object_map pid forge ports details wire =
      let m1 = insert (codes "forge") (of_text forge) empty in
      let m2 = insert (codes "pid") (of_number pid) m1 in
      let m3 = insert (codes "ports") (of_texts ports) m2 in
      insert (codes "wire") (wire_value wire) (extend_object (as_object details) m3)

  unfoldable pub object : ℕ → Text → List Text → Value → WireSpec F → Value
  unfolding object_map
  object pid forge ports details wire = of_map (object_map pid forge ports details wire)

  unfoldable pub announce :
      {S : Type 0} → Stdout S → Bool → ℕ → Text → List Text → Value → WireSpec F → Step S (Unit {0})
  unfolding say object
  announce out json_mode pid forge ports details wire s =
      say out (if json_mode then print (object pid forge ports details wire) ∷ [] else ports) s
