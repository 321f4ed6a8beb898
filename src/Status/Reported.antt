-- ===== src/Status/Reported.antt =====
-- What a reader of the announcement finds.
use ttyforge.Common.{codes, text_eq, ℕ, ◌≡◌, refl, ◌∙◌, false, Option, none, some, List}
use ttyforge.Common.Text.{Text}
use ttyforge.Wire.Plan.{WireSpec}
use ttyforge.Status.{Json, insert_some, wire_map, wire_value, extend_object, object_map}

-- How a reader looks a key up, and how the maps' operations change what is found: the last insertion
-- of a key counts, and extending inserts each of the other map's.
pub record HasGet (F : Type 0) (js : Json F) : Type 0 where
  pub get : Text → js.Map → Option js.Value
  pub get_empty : (k : Text) → get k js.empty ≡ none
  pub get_same : (k : Text) (v : js.Value) (m : js.Map) → get k (js.insert k v m) ≡ some v
  pub get_other :
      (k k' : Text) (v : js.Value) (m : js.Map)
      → text_eq k k' ≡ false
      → get k (js.insert k' v m) ≡ get k m
  pub get_extend : (k : Text) (x m : js.Map) → get k x ≡ none → get k (js.extend x m) ≡ get k m

-- `json!` of an optional field.
abbrev pub as_json : {A V : Type 0} → (A → V) → Option A → Option V
as_json json none = none
as_json json (some a) = some (json a)

module _ {F : Type 0} (js : Json F) (g : HasGet F js) where
  open js use {Value, Map, of_text, of_number, of_float, of_texts, as_object, millis, insert}
  open g use {get, get_empty, get_same, get_other, get_extend}

  -- What an optional insertion of another key, and of the key itself, does to a lookup.
  passed :
      {A : Type 0} (k k' : Text) (json : A → Value) (o : Option A) (m : Map)
      → text_eq k k' ≡ false
      → get k (insert_some js k' json o m) ≡ get k m
  unfolding insert_some
  passed k k' json none m h = refl
  passed k k' json (some a) m h = get_other k k' (json a) m h

  met :
      {A : Type 0} (k : Text) (json : A → Value) (o : Option A) (m : Map)
      → get k m ≡ none
      → get k (insert_some js k json o m) ≡ as_json json o
  unfolding insert_some
  met k json none m h = h
  met k json (some a) m h = get_same k (json a) m

  -- The wire's object reports each knob that is in use, the seed included, and no other.
  pub wire_map-get :
      (w : WireSpec F)
      → (get (codes "baud_sim") (wire_map js w) ≡ as_json of_number w.baud)
        × (get (codes "latency_ms") (wire_map js w) ≡ as_json (λ d. of_float (millis d)) w.latency)
        × (get (codes "jitter_ms") (wire_map js w) ≡ as_json (λ d. of_float (millis d)) w.jitter)
        × (get (codes "drop") (wire_map js w) ≡ as_json of_float w.drop)
        × (get (codes "corrupt") (wire_map js w) ≡ as_json of_float w.corrupt)
        × (get (codes "seed") (wire_map js w) ≡ as_json of_number w.seed)
  unfolding wire_map
  wire_map-get w =
      let in_millis : ℕ → Value = λ d. of_float (millis d) in
      let m0 = js.empty in
      let m1 = insert_some js (codes "baud_sim") of_number w.baud m0 in
      let m2 = insert_some js (codes "latency_ms") in_millis w.latency m1 in
      let m3 = insert_some js (codes "jitter_ms") in_millis w.jitter m2 in
      let m4 = insert_some js (codes "drop") of_float w.drop m3 in
      let m5 = insert_some js (codes "corrupt") of_float w.corrupt m4 in
      (
        passed (codes "baud_sim") (codes "seed") of_number w.seed m5 refl
            ∙ passed (codes "baud_sim") (codes "corrupt") of_float w.corrupt m4 refl
            ∙ passed (codes "baud_sim") (codes "drop") of_float w.drop m3 refl
            ∙ passed (codes "baud_sim") (codes "jitter_ms") in_millis w.jitter m2 refl
            ∙ passed (codes "baud_sim") (codes "latency_ms") in_millis w.latency m1 refl
            ∙ met (codes "baud_sim") of_number w.baud m0 (get_empty (codes "baud_sim")),
        passed (codes "latency_ms") (codes "seed") of_number w.seed m5 refl
            ∙ passed (codes "latency_ms") (codes "corrupt") of_float w.corrupt m4 refl
            ∙ passed (codes "latency_ms") (codes "drop") of_float w.drop m3 refl
            ∙ passed (codes "latency_ms") (codes "jitter_ms") in_millis w.jitter m2 refl
            ∙ met (codes "latency_ms") in_millis w.latency m1 (
                passed (codes "latency_ms") (codes "baud_sim") of_number w.baud m0 refl
                ∙ get_empty (codes "latency_ms")),
        passed (codes "jitter_ms") (codes "seed") of_number w.seed m5 refl
            ∙ passed (codes "jitter_ms") (codes "corrupt") of_float w.corrupt m4 refl
            ∙ passed (codes "jitter_ms") (codes "drop") of_float w.drop m3 refl
            ∙ met (codes "jitter_ms") in_millis w.jitter m2 (
                passed (codes "jitter_ms") (codes "latency_ms") in_millis w.latency m1 refl
                ∙ passed (codes "jitter_ms") (codes "baud_sim") of_number w.baud m0 refl
                ∙ get_empty (codes "jitter_ms")),
        passed (codes "drop") (codes "seed") of_number w.seed m5 refl
            ∙ passed (codes "drop") (codes "corrupt") of_float w.corrupt m4 refl
            ∙ met (codes "drop") of_float w.drop m3 (
                passed (codes "drop") (codes "jitter_ms") in_millis w.jitter m2 refl
                ∙ passed (codes "drop") (codes "latency_ms") in_millis w.latency m1 refl
                ∙ passed (codes "drop") (codes "baud_sim") of_number w.baud m0 refl
                ∙ get_empty (codes "drop")),
        passed (codes "corrupt") (codes "seed") of_number w.seed m5 refl
            ∙ met (codes "corrupt") of_float w.corrupt m4 (
                passed (codes "corrupt") (codes "drop") of_float w.drop m3 refl
                ∙ passed (codes "corrupt") (codes "jitter_ms") in_millis w.jitter m2 refl
                ∙ passed (codes "corrupt") (codes "latency_ms") in_millis w.latency m1 refl
                ∙ passed (codes "corrupt") (codes "baud_sim") of_number w.baud m0 refl
                ∙ get_empty (codes "corrupt")),
        met (codes "seed") of_number w.seed m5 (
            passed (codes "seed") (codes "corrupt") of_float w.corrupt m4 refl
            ∙ passed (codes "seed") (codes "drop") of_float w.drop m3 refl
            ∙ passed (codes "seed") (codes "jitter_ms") in_millis w.jitter m2 refl
            ∙ passed (codes "seed") (codes "latency_ms") in_millis w.latency m1 refl
            ∙ passed (codes "seed") (codes "baud_sim") of_number w.baud m0 refl
            ∙ get_empty (codes "seed")),
      )

  -- The announced object: the forge, the process and the ports as they are, unless the forge's own
  -- details name them, and the wire whatever the details name.
  pub object_map-get :
      (pid : ℕ) (forge : Text) (ports : List Text) (details : Value) (wire : WireSpec F)
      (extra : Map)
      → as_object details ≡ some extra
      → get (codes "forge") extra ≡ none
      → get (codes "pid") extra ≡ none
      → get (codes "ports") extra ≡ none
      → let m = object_map js pid forge ports details wire in
        (get (codes "forge") m ≡ some (of_text forge))
        × (get (codes "pid") m ≡ some (of_number pid))
        × (get (codes "ports") m ≡ some (of_texts ports))
        × (get (codes "wire") m ≡ some (wire_value js wire))
  unfolding object_map extend_object
  object_map-get pid forge ports details wire extra e f p q =
      rw (object_map, extend_object, e)
        (
          get_other _ _ _ _ refl
              ∙ get_extend _ extra _ f
              ∙ get_other _ _ _ _ refl
              ∙ get_other _ _ _ _ refl
              ∙ get_same _ _ _,
          get_other _ _ _ _ refl ∙ get_extend _ extra _ p ∙ get_other _ _ _ _ refl ∙ get_same _ _ _,
          get_other _ _ _ _ refl ∙ get_extend _ extra _ q ∙ get_same _ _ _,
          get_same _ _ _,
        )
