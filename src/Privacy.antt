-- ===== src/Privacy.antt =====
-- src/mycellm/privacy.py: the scan for sensitive text and its policy by trust level. The regular
-- expressions' engine is a parameter: for a pattern and a text it gives the spans of its matches.
use mycellm.Prelude.{
  ℕ, ◌-◌, String, Bool, true, false, List, [], ◌∷◌, ◌++◌, ltb, any, take, drop, length,
  if◌then◌else◌,
}
use mycellm.Prelude.Text.{Text, codes, lower, has_infix}

pub data Severity : Type 0 where
  high medium low : Severity

pub record SensitiveMatch : Type 0 where
  pub type : String
  pub label : String
  pub pattern : Text
  pub severity : Severity

pub record Pattern : Type 0 where
  pub type : String
  pub label : String
  pub regex : String
  pub severity : Severity

abbrev pub pattern : String → String → String → Severity → Pattern
pattern t l r s = record { type = t; label = l; regex = r; severity = s }

unfoldable pub patterns : List Pattern
patterns =
    pattern "api_key" "OpenAI API key" "sk-[a-zA-Z0-9]{16,}" high
    ∷ pattern "api_key" "OpenRouter API key" "sk-or-v1-[a-zA-Z0-9]{10,}" high
    ∷ pattern "api_key" "GitHub token" "gh[ps]_[a-zA-Z0-9]{20,}" high
    ∷ pattern "api_key" "AWS access key" "AKIA[A-Z0-9]{12,}" high
    ∷ pattern "api_key" "Slack token" "xox[baprs]-[a-zA-Z0-9\\-]{10,}" high
    ∷ pattern "api_key" "Anthropic API key" "sk-ant-[a-zA-Z0-9\\-]{16,}" high
    ∷ pattern "api_key" "HuggingFace token" "hf_[a-zA-Z0-9]{10,}" high
    ∷ pattern "api_key" "Generic secret key"
        "(?:api[_-]?key|secret[_-]?key|access[_-]?token)\\s*[=:]\\s*['\"]?[a-zA-Z0-9_\\-]{8,}"
        medium
    ∷ pattern "private_key" "Private key block"
        "-----BEGIN\\s+(?:RSA|EC|ED25519|OPENSSH|PGP)\\s+PRIVATE\\s+KEY-----" high
    ∷ pattern "password" "Password in context"
        "(?:password|passwd|pwd)\\s*[=:]\\s*['\"]?[^\\s'\"]{4,}" medium
    ∷ pattern "password" "Credentials mention"
        "(?:my\\s+password\\s+is|login\\s+credentials?|auth\\s+token)\\s+\\S+" medium
    ∷ pattern "credit_card" "Credit card number"
        "\\b(?:4\\d{3}|5[1-5]\\d{2}|3[47]\\d{2}|6(?:011|5\\d{2}))[- ]?\\d{4}[- ]?\\d{4}[- ]?\\d{4}\\b"
        high
    ∷ pattern "ssn" "Social Security Number" "\\b\\d{3}-\\d{2}-\\d{4}\\b" high
    ∷ pattern "connection_string" "Database connection string"
        "(?:postgresql|mysql|mongodb|redis|amqp)://[^\\s]{10,}" high
    ∷ pattern "api_key" "Stripe key" "sk_(?:live|test)_[a-zA-Z0-9]{20,}" high
    ∷ pattern "api_key" "Google API key" "AIza[a-zA-Z0-9_\\-]{30,}" high
    ∷ pattern "jwt" "JSON Web Token"
        "eyJ[a-zA-Z0-9_-]{10,}\\.eyJ[a-zA-Z0-9_-]{10,}\\.[a-zA-Z0-9_-]{10,}" high
    ∷ pattern "pii" "Email address" "\\b[a-zA-Z0-9._%+-]+@[a-zA-Z0-9.-]+\\.[a-zA-Z]{2,}\\b" medium
    ∷ pattern "pii" "Phone number"
        "\\b(?:\\+1|1)?[-.\\s]?\\(?\\d{3}\\)?[-.\\s]?\\d{3}[-.\\s]?\\d{4}\\b" medium
    ∷ pattern "pii" "Private IP address"
        "\\b(?:10\\.|172\\.(?:1[6-9]|2\\d|3[01])\\.|192\\.168\\.)\\d{1,3}\\.\\d{1,3}\\b" medium
    ∷ []

unfoldable pub context_exclusions : List Text
context_exclusions =
    codes "example"
    ∷ codes "sample"
    ∷ codes "placeholder"
    ∷ codes "dummy"
    ∷ codes "test"
    ∷ codes "fake"
    ∷ codes "demo"
    ∷ []

-- `pattern.finditer(text)`: the start and the end of each match, compiled with IGNORECASE.
abbrev pub Finder : Type 0
Finder = String → Text → List (ℕ × ℕ)

-- `text[a:b]`
slice : Text → ℕ → ℕ → Text
slice s a b = take (b - a) (drop a s)

-- The thirty characters before a match hold a word that marks an example.
unfoldable pub is_excluded : Text → ℕ → Bool
unfolding slice context_exclusions lower has_infix
is_excluded text start =
    let prefix = lower (slice text (start - 30) start) in
    any (λ word. has_infix word prefix) context_exclusions

unfoldable pub redact : Text → Text
redact matched =
    if ltb 10 (length matched)
    then take 4 matched ++ (codes "..." ++ drop (length matched - 2) matched)
    else take 3 matched ++ codes "..."

match_of : Text → Pattern → ℕ → ℕ → SensitiveMatch
unfolding redact slice
match_of text p start end = record {
  type = p.type;
  label = p.label;
  pattern = redact (slice text start end);
  severity = p.severity;
}

scan_spans : Text → Pattern → List (ℕ × ℕ) → List SensitiveMatch
unfolding is_excluded match_of
scan_spans text p [] = []
scan_spans text p ((start, end) ∷ spans) =
    let rest = scan_spans text p spans in
    if is_excluded text start then rest else match_of text p start end ∷ rest

scan_patterns : Finder → Text → List Pattern → List SensitiveMatch
unfolding scan_spans
scan_patterns finditer text [] = []
scan_patterns finditer text (p ∷ ps) =
    scan_spans text p (finditer p.regex text) ++ scan_patterns finditer text ps

unfoldable pub scan_sensitive : Finder → Text → List SensitiveMatch
unfolding scan_patterns patterns
scan_sensitive finditer text = scan_patterns finditer text patterns

pub data Action : Type 0 where
  allow warn block : Action

-- The severity of no match at all is `none_found`.
pub data Highest : Type 0 where
  none_found : Highest
  found : Severity → Highest

pub record ScanResult : Type 0 where
  pub matches : List SensitiveMatch
  pub action : Action
  pub highest_severity : Highest

-- Trust levels, as in TRUST_ORDER of execution/policy.py and TRUST_LEVELS of privacy.py.
pub data Trust : Type 0 where
  untrusted trusted full local : Trust

abbrev pub is_high : SensitiveMatch → Bool
is_high m = elim m.severity [ high ↦ true | _ ↦ false ]

abbrev pub is_medium : SensitiveMatch → Bool
is_medium m = elim m.severity [ medium ↦ true | _ ↦ false ]

unfoldable pub highest : List SensitiveMatch → Severity
highest ms = if any is_high ms then high else if any is_medium ms then medium else low

unfoldable pub action_for : Trust → Severity → Action
action_for untrusted high = block
action_for untrusted medium = warn
action_for untrusted low = allow
action_for trusted high = warn
action_for trusted _ = allow
action_for _ _ = allow

unfoldable pub judge : Trust → List SensitiveMatch → ScanResult
unfolding highest action_for
judge trust [] = record { matches = []; action = allow; highest_severity = none_found }
judge trust (m ∷ ms) = record {
  matches = m ∷ ms;
  action = action_for trust (highest (m ∷ ms));
  highest_severity = found (highest (m ∷ ms));
}

unfoldable pub scan_with_policy : Finder → Text → Trust → ScanResult
unfolding judge
scan_with_policy finditer text local = record {
  matches = [];
  action = allow;
  highest_severity = none_found;
}
scan_with_policy finditer text full = record {
  matches = [];
  action = allow;
  highest_severity = none_found;
}
scan_with_policy finditer text trusted = judge trusted (scan_sensitive finditer text)
scan_with_policy finditer text untrusted = judge untrusted (scan_sensitive finditer text)
