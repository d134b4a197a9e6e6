-- ===== src/Discovery/Rules.antt =====
-- config.go: the rules, and their validation. strings.ToLower on Unicode and regexp.Compile are
-- parameters: a compiled pattern says which texts it matches, none is an error.
use solarwinds_otel_collecto.Base.{
  Bool, false, ◌||◌, List, [], ◌∷◌, map, Option, none, some, String, Result, ok, err, ◌>>=◌,
  if◌then◌else◌, ◌=s=◌, ◌==◌, length, ℤ,
}

abbrev pub Pattern : Type 0
Pattern = String → Bool

pub record ImageRule : Type 0 where
  pub database_type : String
  pub patterns : List String
  pub patterns_compiled : List Pattern
  pub default_port : ℤ

pub record DomainRule : Type 0 where
  pub database_type : String
  pub patterns : List String
  pub patterns_compiled : List Pattern
  pub domain_hints : List String
  pub default_port : ℤ

pub record DatabaseConfig : Type 0 where
  pub image_rules : List ImageRule
  pub domain_rules : List DomainRule

pub data RuleError : Type 0 where
  no_database_type no_patterns : RuleError
  bad_pattern : String → RuleError

module _ (lower : String → String) (compile : String → Option Pattern) where
  unfoldable pub compile_patterns : List String → Result RuleError (List Pattern)
  compile_patterns [] = ok []
  compile_patterns (pattern ∷ patterns) = elim (compile pattern) [
    | none ↦ err (bad_pattern pattern)
    | some compiled ↦ compile_patterns patterns >>= λ rest. ok (compiled ∷ rest)
  ]

  -- The checks that both kinds of rule share: the type in lower case, and the patterns compiled.
  unfoldable pub checked_rule : String → List String → Result RuleError (String × List Pattern)
  checked_rule database_type patterns =
      let compiled = compile_patterns patterns in
      if database_type =s= ""
      then err no_database_type
      else if length patterns == 0
      then err no_patterns
      else compiled >>= λ ps. ok (lower database_type, ps)

  unfoldable pub validate_image_rules : List ImageRule → Result RuleError (List ImageRule)
  validate_image_rules [] = ok []
  validate_image_rules (r ∷ rs) = checked_rule r.database_type r.patterns >>= λ checked.
      validate_image_rules rs >>= λ rest.
      ok (record r { database_type = checked.0; patterns_compiled = checked.1 } ∷ rest)

  unfoldable pub validate_domain_rules : List DomainRule → Result RuleError (List DomainRule)
  validate_domain_rules [] = ok []
  validate_domain_rules (r ∷ rs) = checked_rule r.database_type r.patterns >>= λ checked.
      validate_domain_rules rs >>= λ rest. ok (
        record r {
          database_type = checked.0;
          patterns_compiled = checked.1;
          domain_hints = map lower r.domain_hints;
        }
        ∷ rest)

  -- `ValidateDatabaseDiscovery`.
  unfoldable pub validate_database_discovery : DatabaseConfig → Result RuleError DatabaseConfig
  validate_database_discovery c = validate_image_rules c.image_rules >>= λ image_rules.
      validate_domain_rules c.domain_rules >>= λ domain_rules.
      ok (record { image_rules = image_rules; domain_rules = domain_rules })

-- A pattern of the list matches.
unfoldable pub any_match : List Pattern → String → Bool
any_match [] s = false
any_match (p ∷ ps) s = p s || any_match ps s
