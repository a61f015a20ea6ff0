-- ===== src/Value.antt =====
-- The values of a parsed configuration file (YAML or JSON), as the configuration readers test
-- them. A float, a date and any other object is `other`. The keys of a mapping are texts.
use smol_router.Prelude.{ℕ, String, Bool, List, [], ◌∷◌, Dict}

mutual
  pub data Value : Type 0 where
    null : Value
    bool : Bool → Value
    int : ℕ → Value
    -- `negative n` is -(n + 1)
    negative : ℕ → Value
    text : String → Value
    array : Values → Value
    mapping : Fields → Value
    other : Value

  pub data Values : Type 0 where
    nil : Values
    cons : Value → Values → Values

  pub data Fields : Type 0 where
    end : Fields
    field : String → Value → Fields → Fields

abbrev pub items : Values → List Value
items nil = []
items (cons v vs) = v ∷ items vs

abbrev pub fields : Fields → Dict Value
fields end = []
fields (field k v fs) = (k, v) ∷ fields fs

abbrev pub fields_of : Dict Value → Fields
fields_of [] = end
fields_of ((k, v) ∷ d) = field k v (fields_of d)
