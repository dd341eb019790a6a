-- ===== src/Policy/Json.antt =====
-- The values that encoding/json decodes into `any`, and what the merge asks of float64 and of
-- encoding/json. A Go map is a list of fields with distinct keys. json.Number does not arise, since
-- no decoder here asks for it.
use arx_mdm.Prelude.{
  ◌≡◌, Bool, true, false, ◌&&◌, not, List, [], ◌∷◌, Option, none, some, Text, text_eq,
  if◌then◌else◌, length, ◌==◌,
}

mutual
  pub data Json (F : Type 0) : Type 0 where
    null : Json F
    bool : Bool → Json F
    num : F → Json F
    str : Text → Json F
    arr : Items F → Json F
    obj : Fields F → Json F

  pub data Items (F : Type 0) : Type 0 where
    nil : Items F
    cons : Json F → Items F → Items F

  pub data Fields (F : Type 0) : Type 0 where
    end : Fields F
    field : Text → Json F → Fields F → Fields F

module _ {F : Type 0} where
  abbrev pub items : Items F → List (Json F)
  items nil = []
  items (cons v vs) = v ∷ items vs

  abbrev pub from_items : List (Json F) → Items F
  from_items [] = nil
  from_items (v ∷ vs) = cons v (from_items vs)

  abbrev pub fields : Fields F → List (Text × Json F)
  fields end = []
  fields (field k v fs) = (k, v) ∷ fields fs

  -- `v, ok := m[k]`
  unfoldable pub lookup_field : Text → Fields F → Option (Json F)
  lookup_field k end = none
  lookup_field k (field j v fs) = if text_eq j k then some v else lookup_field k fs

  -- `m[k] = v`
  unfoldable pub set_field : Text → Json F → Fields F → Fields F
  set_field k v end = field k v end
  set_field k v (field j w fs) = if text_eq j k then field j v fs else field j w (set_field k v fs)

abbrev pub equal_at : {A : Type 0} → (A → Bool) → Option A → Bool
equal_at p none = false
equal_at p (some w) = p w

-- float64 and encoding/json, as the merge calls them.
pub record Encoding : Type 1 where
  pub Float : Type 0
  pub float_eqb : Float → Float → Bool
  pub float_ltb : Float → Float → Bool
  pub float_leb : Float → Float → Bool
  pub abs_sub : Float → Float → Float  -- math.Abs(a - b)
  pub abs : Float → Float
  pub max : Float → Float → Float
  pub one : Float
  pub scale : Float → Float  -- 1e-9 * x
  pub marshal : Json Float → Text
  pub unmarshal : Text → Option (Json Float)
  pub unmarshal_map : Text → Option (Fields Float)

module _ (E : Encoding) where
  open E use {Float, float_eqb, float_ltb, marshal, unmarshal}

  -- Documented behaviour of `<` on the numbers that JSON holds, of which none is NaN.
  pub record IsOrdered : Type 0 where
    pub ltb_irrefl : (a : Float) → float_ltb a a ≡ false
    pub ltb_trans :
        (a b c : Float) → float_ltb b a ≡ false → float_ltb c b ≡ false → float_ltb c a ≡ false
    pub ltb_asymm : (a b : Float) → float_ltb a b ≡ true → float_ltb b a ≡ false

  -- normalizeJSON
  unfoldable pub normalize_json : Json Float → Json Float
  normalize_json v = elim (unmarshal (marshal v)) [ none ↦ v | some out ↦ out ]

  -- reflect.DeepEqual on decoded values; two maps are equal if they have the same keys, at equal
  -- values, in any order.
  unfoldable mutual
    pub deep_equal : Json Float → Json Float → Bool
    deep_equal null null = true
    deep_equal (bool a) (bool b) = if a then b else not b
    deep_equal (num a) (num b) = float_eqb a b
    deep_equal (str a) (str b) = text_eq a b
    deep_equal (arr a) (arr b) = deep_equal_items a b
    deep_equal (obj a) (obj b) = length (fields a) == length (fields b) && deep_equal_fields a b
    deep_equal _ _ = false

    pub deep_equal_items : Items Float → Items Float → Bool
    deep_equal_items nil nil = true
    deep_equal_items (cons v vs) (cons w ws) = deep_equal v w && deep_equal_items vs ws
    deep_equal_items _ _ = false

    pub deep_equal_fields : Fields Float → Fields Float → Bool
    deep_equal_fields end other = true
    deep_equal_fields (field k v fs) other =
        equal_at (deep_equal v) (lookup_field k other) && deep_equal_fields fs other
