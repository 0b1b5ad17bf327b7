-- ===== src/Gate/Patterns.antt =====
-- The byte patterns of store/gate.py: known token prefixes, PEM keys, credential URIs and long
-- tokens.
use knokeep.Prelude.{ℕ, Text, codes, Bool, not, ◌||◌, ◌&&◌, List, [], ◌∷◌, ◌++◌, leb, ◌==◌, any}
use knokeep.Gate.Regex.{Re, eps, cls, at_least, between, seq, alt, not_ahead}

abbrev pub is_upper : ℕ → Bool
is_upper c = leb b'A' c && leb c b'Z'

abbrev pub is_lower : ℕ → Bool
is_lower c = leb b'a' c && leb c b'z'

abbrev pub is_digit : ℕ → Bool
is_digit c = leb b'0' c && leb c b'9'

abbrev pub is_alnum : ℕ → Bool
is_alnum c = is_upper c || (is_lower c || is_digit c)

abbrev pub one_of : Text → ℕ → Bool
one_of chars c = any (λ d. d == c) chars

abbrev pub alnum_or : Text → ℕ → Bool
alnum_or chars c = is_alnum c || one_of chars c

abbrev pub upper_or_digit : ℕ → Bool
upper_or_digit c = is_upper c || is_digit c

-- A literal of a pattern, in front of the rest of it.
abbrev pub lit : Text → Re → Re
lit [] r = r
lit (c ∷ s) r = seq (cls (λ d. c == d)) (lit s r)

abbrev pub word : Text → Re
word s = lit s eps

pub record Pattern : Type 0 where
  pub re : Re
  pub label : Text

abbrev pattern_of : Text → Re → Pattern
pattern_of label r = record { re = r; label = label }

unfoldable pub prefix_patterns : List Pattern
prefix_patterns =
    pattern_of (codes "anthropic key") (lit (codes "sk-ant-") (at_least (alnum_or (codes "_-")) 10))
    ∷ pattern_of (codes "openrouter-style key") (lit (codes "sk-or-") (at_least is_alnum 10))
    ∷ pattern_of (codes "openai-style key") (
        lit (codes "sk-")
          (seq (not_ahead (alt (word (codes "ant-")) (word (codes "or-")))) (at_least is_alnum 10)))
    ∷ pattern_of (codes "stripe-style live key") (
        seq (alt (word (codes "sk")) (alt (word (codes "rk")) (word (codes "pk"))))
          (lit (codes "_live_") (at_least is_alnum 10)))
    ∷ pattern_of (codes "github personal access token") (lit (codes "ghp_") (at_least is_alnum 20))
    ∷ pattern_of (codes "github fine-grained PAT")
        (lit (codes "github_pat_") (at_least (alnum_or (codes "_")) 20))
    ∷ pattern_of (codes "gitlab PAT") (lit (codes "glpat-") (at_least (alnum_or (codes "_-")) 10))
    ∷ pattern_of (codes "AWS access key") (lit (codes "AKIA") (at_least upper_or_digit 12))
    ∷ pattern_of (codes "Slack token") (
        lit (codes "xox") (
          seq (cls (one_of (codes "baprs")))
            (lit (codes "-") (at_least (alnum_or (codes "-")) 10))))
    ∷ pattern_of (codes "PyPI upload token")
        (lit (codes "pypi-") (at_least (alnum_or (codes "_-")) 20))
    ∷ []

unfoldable pub added_prefix_patterns : List Pattern
added_prefix_patterns =
    pattern_of (codes "openai project/service key") (
      lit (codes "sk-") (
        seq (alt (word (codes "proj")) (word (codes "svcacct")))
          (lit (codes "-") (between (alnum_or (codes "_-")) 6 200))))
    ∷ pattern_of (codes "github token") (
        lit (codes "gh")
          (seq (cls (one_of (codes "osur"))) (lit (codes "_") (between is_alnum 20 255))))
    ∷ pattern_of (codes "huggingface token") (lit (codes "hf_") (between is_alnum 20 255))
    ∷ pattern_of (codes "google oauth token")
        (lit (codes "ya29.") (between (alnum_or (codes "_-")) 10 512))
    ∷ pattern_of (codes "google api key")
        (lit (codes "AIza") (between (alnum_or (codes "_-")) 20 200))
    ∷ pattern_of (codes "AWS temp key") (lit (codes "ASIA") (between upper_or_digit 12 200))
    ∷ pattern_of (codes "stripe webhook secret") (lit (codes "whsec_") (between is_alnum 16 200))
    ∷ pattern_of (codes "npm token") (lit (codes "npm_") (between is_alnum 30 200))
    ∷ pattern_of (codes "stripe-style test key") (
        seq (alt (word (codes "sk")) (word (codes "rk")))
          (lit (codes "_test_") (between is_alnum 10 200)))
    ∷ pattern_of (codes "JWT") (
        lit (codes "eyJ") (
          seq (between (alnum_or (codes "_-")) 10 1024) (
            lit (codes ".") (
              seq (between (alnum_or (codes "_-")) 10 1024)
                (lit (codes ".") (between (alnum_or (codes "_-")) 4 1024))))))
    ∷ pattern_of (codes "slack app token")
        (lit (codes "xoxe-") (between (alnum_or (codes "-")) 8 200))
    ∷ []

unfoldable pub all_prefix_patterns : List Pattern
unfolding prefix_patterns added_prefix_patterns
all_prefix_patterns = prefix_patterns ++ added_prefix_patterns

unfoldable pub pem_re : Re
pem_re = lit (codes "-----BEGIN ") (
    seq (at_least (λ c. is_upper c || (is_digit c || c == b' ')) 0)
      (word (codes "PRIVATE KEY-----")))

-- `\s` of a bytes pattern
abbrev byte_space : ℕ → Bool
byte_space c = c == 32 || (leb 9 c && leb c 13)

abbrev uri_part : Text → ℕ → Bool
uri_part excluded c = not (byte_space c || one_of excluded c)

unfoldable pub cred_uri_re : Re
cred_uri_re = seq (cls (λ c. is_upper c || is_lower c)) (
    seq (between (alnum_or (codes "+.-")) 0 31) (
      lit (codes "://") (
        seq (at_least (uri_part (codes "/:@")) 1) (
          lit (codes ":") (
            seq (at_least (uri_part (codes "/:@")) 1)
              (lit (codes "@") (at_least (uri_part (codes "/")) 1)))))))

unfoldable pub token_re : Re
token_re = at_least (alnum_or (codes "+_=.-")) 32
