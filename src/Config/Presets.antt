-- ===== src/Config/Presets.antt =====
-- `NewRemoteTarget` of svc/node/quarks/cluster/cluster.go: the middlewares of a remote from its
-- configuration, and the filter presets of lib/config/parse_node.go that they come from.
use venn.Prelude.{
  ◌≡◌, refl, sym, ap, ◌∙◌, inl, inr, String, Bool, false, not, Option, none, some, List, [], ◌∷◌,
  str_eq, arith, if◌then◌else◌, Bool-cases,
}
use venn.Prelude.Int.{pos, ltb_ℤ}
use venn.Prelude.Duration.{Duration, max}
use venn.Prelude.Maps.{lookup, insert, lookup-insert}
use venn.Rpc.{Request, Handler, failed, err_method_not_allowed}
use venn.Callcenter.Backer.{Backer, new_backer}
use venn.Callcenter.Validator.{Validator, new_validator}
use venn.Callcenter.Doctor.{Doctor, new_doctor}
use venn.Middlewares.Guards.{is_denied, filterer}
use venn.Middlewares.LookBack.{BlockLookBack}
use venn.Config.{Filter, Remote, Chain, seconds, with_preset, parse_filters, parse_remote}

-- `maps.Copy`: the first entry of a name counts in both lists.
unfoldable pub copy : List (String × Bool) → List (String × Bool) → List (String × Bool)
copy methods [] = methods
copy methods ((name, value) ∷ others) = insert name value (copy methods others)

unfoldable pub methods_of : List (String × Bool) → List Filter → List (String × Bool)
unfolding copy
methods_of methods [] = methods
methods_of methods (f ∷ filters) = methods_of (copy methods f.methods) filters

-- `RemoteTarget`, without the middlewares that have no configuration and without the limiter.
pub record RemoteTarget : Type 0 where
  pub backer : Backer
  pub validator : Validator
  pub doctor : Doctor
  pub methods : List (String × Bool)
  pub look_back : Option BlockLookBack

-- `NewRemoteTarget`; `two_blocks` is twice the block time of the chain, which is computed as a float.
unfoldable pub new_remote_target : Duration → Remote → Chain → RemoteTarget
unfolding methods_of new_backer new_validator new_doctor
new_remote_target two_blocks cfg chain = record {
  backer = new_backer cfg.rate_limit_backoff cfg.error_backoff_min cfg.error_backoff_max;
  validator = new_validator (max (seconds 60) two_blocks);
  doctor =
      new_doctor chain.id chain.name cfg.name cfg.health_check_interval_min
        cfg.health_check_interval_max;
  methods = methods_of [] cfg.parsed_filters;
  look_back =
      if ltb_ℤ (pos 0) cfg.max_block_lookback
      then some (record {
        chain_limit = chain.max_block_lookback;
        remote_limit = some cfg.max_block_lookback;
      })
      else none;
}

-- The last word of several on a method.
abbrev pub or_else : Option Bool → Option Bool → Option Bool
or_else none earlier = earlier
or_else (some b) earlier = some b

-- What the filters of one name say of a method, the last one first, and what several presets say.
abbrev pub preset_word : String → List Filter → String → Option Bool
preset_word method [] preset = none
preset_word method (f ∷ filters) preset =
    or_else (preset_word method filters preset)
      (if str_eq preset f.name then lookup method f.methods else none)

abbrev pub last_word : String → List Filter → List String → Option Bool
last_word method filters [] = none
last_word method filters (preset ∷ presets) =
    or_else (last_word method filters presets) (preset_word method filters preset)

lookup-copy :
    (name : String) (methods others : List (String × Bool))
    → lookup name (copy methods others) ≡ or_else (lookup name others) (lookup name methods)
unfolding copy lookup
lookup-copy name methods [] = refl
lookup-copy name methods ((k, v) ∷ others) =
    lookup-insert k name v (copy methods others) ∙ (elim (Bool-cases (str_eq k name)) [
      | inl e ↦ rw e refl
      | inr e ↦ rw e (lookup-copy name methods others)
    ])

or_else_assoc : (a b c : Option Bool) → or_else (or_else a b) c ≡ or_else a (or_else b c)
or_else_assoc none b c = refl
or_else_assoc (some a) b c = refl

or_else-none : (a : Option Bool) → or_else a none ≡ a
or_else-none none = refl
or_else-none (some a) = refl

-- What the methods say that several filters are copied into.
abbrev word : String → List Filter → Option Bool
word method [] = none
word method (f ∷ filters) = or_else (word method filters) (lookup method f.methods)

lookup-methods_of :
    (name : String) (methods : List (String × Bool)) (filters : List Filter)
    → lookup name (methods_of methods filters) ≡ or_else (word name filters) (lookup name methods)
unfolding methods_of
lookup-methods_of name methods [] = refl
lookup-methods_of name methods (f ∷ filters) =
    lookup-methods_of name (copy methods f.methods) filters
    ∙ ap (or_else (word name filters)) (lookup-copy name methods f.methods)
    ∙ sym (or_else_assoc (word name filters) (lookup name f.methods) (lookup name methods))

word-with_preset :
    (name preset : String) (filters others : List Filter)
    → word name (with_preset preset filters others)
      ≡ or_else (word name others) (preset_word name filters preset)
unfolding with_preset
word-with_preset name preset [] others = sym (or_else-none (word name others))
word-with_preset name preset (f ∷ filters) others =
    let rec = word-with_preset name preset filters others in
    elim (Bool-cases (str_eq preset f.name)) [
      | inl e ↦ rw e (
          ap (λ w. or_else w (lookup name f.methods)) rec
          ∙ or_else_assoc (word name others) (preset_word name filters preset)
              (lookup name f.methods))
      | inr e ↦ rw e (
          rec
          ∙ ap (or_else (word name others)) (sym (or_else-none (preset_word name filters preset))))
    ]

word-parse_filters :
    (name : String) (filters : List Filter) (presets : List String)
    → word name (parse_filters filters presets) ≡ last_word name filters presets
unfolding parse_filters
word-parse_filters name filters [] = refl
word-parse_filters name filters (p ∷ presets) =
    word-with_preset name p filters (parse_filters filters presets)
    ∙ ap (λ w. or_else w (preset_word name filters p)) (word-parse_filters name filters presets)

abbrev pub says_no : Option Bool → Bool
says_no none = false
says_no (some b) = not b

is_denied-word :
    (methods : List (String × Bool)) (method : String)
    → is_denied methods method ≡ says_no (lookup method methods)
unfolding is_denied
is_denied-word methods method = ground arith

-- The filterer of a remote refuses a method exactly if the last of the remote's presets that mentions the
-- method has false for it; of several presets of one name the later one counts. Every other request
-- goes on unchanged, also one for a method that no preset mentions.
pub filterer-last_word :
    {S : Type 0} (expand_env : String → String) (filters : List Filter) (two_blocks : Duration)
    (cfg : Remote) (chain : Chain) (next : Handler S) (r : Request) (s : S)
    → filterer
        ((new_remote_target two_blocks (parse_remote expand_env filters cfg) chain).methods)
        next
        r
        s
      ≡ (if says_no (last_word r.method filters cfg.filters)
          then (failed err_method_not_allowed ∷ [], s)
          else next r s)
unfolding filterer new_remote_target parse_remote lookup
filterer-last_word expand_env filters two_blocks cfg chain next r s =
    ap (λ b. if b then (failed err_method_not_allowed ∷ [], s) else next r s)
      (is_denied-word (methods_of [] (parse_filters filters cfg.filters)) r.method
        ∙ ap says_no (
            lookup-methods_of r.method [] (parse_filters filters cfg.filters)
            ∙ or_else-none _
            ∙ word-parse_filters r.method filters cfg.filters))
