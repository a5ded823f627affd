-- ===== src/RateLimit/Endpoint.antt =====
-- The limits per endpoint (internal/rateguard/rateguard.go). A request is its key, which `keyFunc`
-- makes of it, and its path.
use pre_code.Common.{
  ℕ, ◌+◌, ◌≡◌, refl, ap, ◌∙◌, All, true, false, Bool, Option, none, some, List, [], ◌∷◌, ◌++◌,
  String, Dict, lookup, insert, lookup-insert, keep, length, map, ltb, leb, ◌==◌, str_eq,
  str_eq_refl, if◌then◌else◌, arith, Bool-cases, inl, inr,
}
use pre_code.RateLimit.{slide}

pub record EndpointRule : Type 0 where
  pub pattern : String
  pub limit : ℕ
  pub window : ℕ
  pub burst : ℕ

pub record EndpointConfig : Type 0 where
  pub rules : List EndpointRule
  pub default_limit : ℕ
  pub default_window : ℕ

pub record EndpointLimiter : Type 0 where
  pub config : EndpointConfig
  pub windows : Dict (List ℕ)

-- The first rule whose pattern is the path.
unfoldable pub find_rule : List EndpointRule → EndpointConfig → String → EndpointRule
find_rule [] cfg path = record {
  pattern = "";
  limit = cfg.default_limit;
  window = cfg.default_window;
  burst = 0;
}
find_rule (rule ∷ rules) cfg path =
    if str_eq rule.pattern path then rule else find_rule rules cfg path

-- `limit := rule.Limit; if rule.Burst > 0 { limit += rule.Burst }`.
abbrev pub limit_of : EndpointRule → ℕ
limit_of rule = if ltb 0 rule.burst then rule.limit + rule.burst else rule.limit

stamps_or_new : Option (List ℕ) → List ℕ
stamps_or_new none = []
stamps_or_new (some ts) = ts

-- The calls of a key that are recorded.
pub stamps_of : String → EndpointLimiter → List ℕ
unfolding stamps_or_new
stamps_of key el = stamps_or_new (lookup key el.windows)

unfoldable pub allow : String → String → ℕ → EndpointLimiter → EndpointLimiter × Bool
unfolding find_rule stamps_of slide
allow key path now el =
    let rule = find_rule el.config.rules el.config path in
    let (stamps, allowed) = slide (limit_of rule) rule.window now (stamps_of key el) in
    (record el { windows = insert key stamps el.windows }, allowed)

-- The status that the middleware answers with, or the request goes on.
unfoldable pub middleware : String → String → ℕ → EndpointLimiter → EndpointLimiter × Option ℕ
unfolding allow
middleware key path now el =
    let (el', allowed) = allow key path now el in (el', if allowed then none else some 429)

cleaned : ℕ → ℕ → Dict (List ℕ) → Dict (List ℕ)
cleaned now window [] = []
cleaned now window ((key, ts) ∷ d) =
    let rest = cleaned now window d in
    let valid = keep (λ t. ltb now (t + window)) ts in
    if length valid == 0 then rest else (key, valid) ∷ rest

-- Every entry is cut to the default window, whatever the window of its rule.
unfoldable pub cleanup : ℕ → EndpointLimiter → EndpointLimiter
unfolding cleaned
cleanup now el = record el { windows = cleaned now el.config.default_window el.windows }

unfoldable pub stats : EndpointLimiter → List (String × ℕ)
stats el = map (λ e. (e.0, length e.1)) el.windows

-- The first rule of a path is the one that is found.
find_rule-first :
    (before after : List EndpointRule) (rule : EndpointRule) (cfg : EndpointConfig) (path : String)
    → All (λ (r : EndpointRule). str_eq r.pattern path ≡ false) before
    → str_eq rule.pattern path ≡ true
    → find_rule (before ++ rule ∷ after) cfg path ≡ rule
unfolding find_rule
find_rule-first [] after rule cfg path others is = rw is refl
find_rule-first (r ∷ before) after rule cfg path others is =
    rw (others.0) (find_rule-first before after rule cfg path others.1 is)

allow-rule :
    (key path : String) (now : ℕ) (el : EndpointLimiter) (rule : EndpointRule)
    → find_rule el.config.rules el.config path ≡ rule
    → let live = keep (λ t. ltb now (t + rule.window)) (stamps_of key el) in
      let (el', allowed) = allow key path now el in
      (allowed ≡ ltb (length live) (rule.limit + rule.burst))
      × (stamps_of key el' ≡ (if allowed then live ++ now ∷ [] else live))
unfolding allow
allow-rule key path now el rule found =
    let live = keep (λ t. ltb now (t + rule.window)) (stamps_of key el) in
    let most : limit_of rule ≡ rule.limit + rule.burst = ground arith in
    rw found (elim (Bool-cases (leb (limit_of rule) (length live))) [
      | inl full ↦ rw full (ground (arith, most), rw (lookup-insert, str_eq_refl key) refl)
      | inr free ↦ rw free (ground (arith, most), rw (lookup-insert, str_eq_refl key) refl)
    ])

-- A request to a path, of which a rule is the first in the list with this pattern, is let through
-- exactly when fewer than the limit of the rule, its burst added, of the recorded calls of its key lie
-- in the window of the rule; then its time is recorded, and the calls that lie before the window are
-- forgotten in either case.
pub allow_exact :
    (key path : String) (now : ℕ) (el : EndpointLimiter) (before after : List EndpointRule)
    (rule : EndpointRule)
    → el.config.rules ≡ before ++ rule ∷ after
    → All (λ (r : EndpointRule). str_eq r.pattern path ≡ false) before
    → str_eq rule.pattern path ≡ true
    → let live = keep (λ t. ltb now (t + rule.window)) (stamps_of key el) in
      let (el', allowed) = allow key path now el in
      (allowed ≡ ltb (length live) (rule.limit + rule.burst))
      × (stamps_of key el' ≡ (if allowed then live ++ now ∷ [] else live))
allow_exact key path now el before after rule listed others is = allow-rule key path now el rule (
    ap (λ (rs : List EndpointRule). find_rule rs el.config path) listed
    ∙ find_rule-first before after rule el.config path others is)
