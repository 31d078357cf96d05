-- ===== src/Config/Loading.antt =====
-- What a loaded configuration holds.
use mathlib.Core.Path.{subst}
use mathlib.Core.Option.{some-injective}
use distri_store.Prelude.{
  ◌≡◌, ◌≢◌, refl, sym, ◌∙◌, false, Option, none, some, inl, inr, List, [], ◌∷◌, Str, codes, str_eq,
  str_eq_iff, Bool-cases, Option-cases, arith, if◌then◌else◌,
}
use distri_store.Prelude.Dict
use distri_store.Prelude.Dict.{Dict}
use distri_store.Dht.{str_elem}
use distri_store.Config.{
  Value, Section, AppConfig, known, is_auto, with_node_id, build_config, load_config, section,
}

-- A setting is the one of the file when it is a field of the dataclass, and is dropped otherwise.
pub get-known :
    (fields : List Str) (raw : Dict Value) (k : Str)
    → Dict.get (known fields raw) k ≡ (if str_elem k fields then Dict.get raw k else none)
unfolding known Dict.get
get-known fields [] k = ground arith
get-known fields ((j, v) ∷ raw) k = ground (arith, get-known fields raw k, str_eq_iff j k)

with_node_id-named :
    (fresh : Str) (cfg : AppConfig)
    → fresh ≢ codes "auto"
    → is_auto (with_node_id fresh cfg).node.node_id ≡ false
unfolding with_node_id
with_node_id-named fresh cfg generated = elim (Bool-cases (is_auto cfg.node.node_id)) [
  | inr named ↦ rw (with_node_id, named) named
  | inl auto ↦ elim (Bool-cases (str_eq fresh (codes "auto"))) [
    | inl same ↦ absurd (generated ((str_eq_iff fresh (codes "auto")).0 same))
    | inr other ↦ rw (with_node_id, auto) other
  ]
]

named_of :
    (fresh : Str) (built cfg : AppConfig)
    → fresh ≢ codes "auto"
    → some (with_node_id fresh built) ≡ some cfg
    → is_auto cfg.node.node_id ≡ false
named_of fresh built cfg generated e =
    subst (λ (c : AppConfig). is_auto c.node.node_id ≡ false) (some-injective _ _ e)
      (with_node_id-named fresh built generated)

-- When the generated id is not "auto": the node of a loaded configuration has an id of its own,
-- whatever the file holds.
pub load_config-named :
    (fresh : Str) (file : Option (Option (Dict Section))) (cfg : AppConfig)
    → fresh ≢ codes "auto"
    → load_config fresh file ≡ some cfg
    → is_auto cfg.node.node_id ≡ false
unfolding load_config
load_config-named fresh none cfg generated e = named_of fresh _ cfg generated e
load_config-named fresh (some content) cfg generated e =
    let raw : Dict Section = elim content [ none ↦ [] | some raw ↦ raw ] in
    elim (Option-cases (build_config raw)) [
      | inl failed ↦
          let step : load_config fresh (some content) ≡ none = rw (load_config, failed) refl in
          absurd (cc)
      | inr (built, done) ↦
          let step : load_config fresh (some content) ≡ some (with_node_id fresh built) =
            rw (load_config, done) refl in
          named_of fresh built cfg generated (sym step ∙ e)
    ]

-- An empty file is read like a file that is not there.
pub load_config-empty : (fresh : Str) → load_config fresh (some none) ≡ load_config fresh none
unfolding load_config build_config section known Dict.get
load_config-empty fresh = refl
