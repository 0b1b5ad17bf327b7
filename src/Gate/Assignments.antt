-- ===== src/Gate/Assignments.antt =====
-- The text pass of store/gate.py: assignments to credential names, and Authorization headers.
use knokeep.Prelude.{ℕ, Text, codes, Bool, not, ◌||◌, List, [], ◌∷◌, ◌==◌}
use knokeep.Gate.Platform.{Platform, fold_case, is_space}
use knokeep.Gate.Regex.{
  Re, eps, cls, at_least, between, seq, alt, group, start_anchor, end_anchor, not_behind, word_end,
}
use knokeep.Gate.Patterns.{is_upper, is_lower, is_alnum, one_of, lit}

-- A literal under `re.IGNORECASE`.
abbrev ilit : Text → Re → Re
ilit [] r = r
ilit (c ∷ s) r = seq (cls (λ d. c == fold_case d)) (ilit s r)

abbrev optional : Text → Re → Re
optional chars r = seq (between (one_of chars) 0 1) r

abbrev any_of : Re → List Re → Re
any_of r [] = r
any_of r (q ∷ rest) = alt r (any_of q rest)

-- `\s*`
abbrev spaces : Re → Re
spaces r = seq (at_least is_space 0) r

abbrev quote_mark : Text
quote_mark = 34 ∷ 39 ∷ []

abbrev iword : Text → Re
iword s = ilit s eps

-- two words with an optional joint
abbrev joined : Text → Text → Re
joined a b = ilit a (optional (codes "_- ") (iword b))

abbrev assign_key : Re
assign_key = any_of (iword (codes "password")) (
    iword (codes "passwd")
    ∷ iword (codes "passphrase")
    ∷ iword (codes "pwd")
    ∷ iword (codes "secret")
    ∷ joined (codes "api") (codes "key")
    ∷ joined (codes "access") (codes "key")
    ∷ joined (codes "secret") (codes "key")
    ∷ joined (codes "auth") (codes "token")
    ∷ iword (codes "token")
    ∷ iword (codes "credential")
    ∷ joined (codes "client") (codes "secret")
    ∷ joined (codes "private") (codes "key")
    ∷ [])

unfoldable pub assign_re : Re
assign_re = seq (not_behind (λ c. is_alnum (fold_case c) || c == b'_')) (
    optional quote_mark (
      seq (group 1 assign_key) (
        optional quote_mark (
          spaces (
            seq (cls (one_of (codes ":="))) (
              spaces (
                any_of
                  (seq (cls (λ c. c == 34)) (
                    seq (group 2 (between (λ c. not (c == 34 || c == 10)) 1 4096))
                      (cls (λ c. c == 34))))
                  (seq (cls (λ c. c == 39)) (
                      seq (group 3 (between (λ c. not (c == 39 || c == 10)) 1 4096))
                        (cls (λ c. c == 39)))
                    ∷ group 4
                        (between (λ c. not (is_space c || one_of (34 ∷ 39 ∷ codes ";,}") c)) 1 4096)
                    ∷ []))))))))

module _ (p : Platform) where
  unfoldable pub placeholder_re : Re
  placeholder_re = seq start_anchor (
      seq
        (any_of (lit (codes "<") (seq (at_least (λ c. not (c == b'>')) 0) (lit (codes ">") eps))) (
          lit (codes "{") (
            optional (codes "{") (
              seq (at_least (λ c. not (c == b'}')) 0) (optional (codes "}") (lit (codes "}") eps))))
          ∷ at_least (λ c. fold_case c == b'x') 3
          ∷ at_least (λ c. c == b'*') 3
          ∷ iword (codes "none")
          ∷ iword (codes "null")
          ∷ iword (codes "nil")
          ∷ iword (codes "true")
          ∷ iword (codes "false")
          ∷ iword (codes "yes")
          ∷ iword (codes "no")
          ∷ iword (codes "enabled")
          ∷ iword (codes "disabled")
          ∷ iword (codes "tbd")
          ∷ iword (codes "todo")
          ∷ iword (codes "changeme")
          ∷ iword (codes "example")
          ∷ iword (codes "redacted")
          ∷ iword (codes "value")
          ∷ iword (codes "placeholder")
          ∷ ilit (codes "your") (optional (codes "_-") (at_least (λ c. p.isalnum c || c == b'_') 1))
          ∷ joined (codes "not") (codes "stored")
          ∷ ilit (codes "in") (optional (codes "_- ") (optional (codes ".") (iword (codes "env"))))
          ∷ ilit (codes "n") (optional (codes "/") (iword (codes "a")))
          ∷ iword (codes "omitted")
          ∷ lit (codes "...") eps
          ∷ []))
        end_anchor)

  abbrev name_start : ℕ → Bool
  name_start c = is_upper c || (is_lower c || c == b'_')

  abbrev name_char : ℕ → Bool
  name_char c = is_alnum c || c == b'_'

  unfoldable pub env_ref_re : Re
  env_ref_re = seq start_anchor (
      seq
        (alt
          (lit (codes "$") (
            optional (codes "{")
              (seq (cls name_start) (seq (at_least name_char 0) (optional (codes "}") eps)))))
          (lit (codes "%")
            (seq (cls name_start) (seq (at_least name_char 0) (lit (codes "%") eps)))))
        end_anchor)

  abbrev word_char : ℕ → Bool
  word_char c = p.isalnum c || c == b'_'

  unfoldable pub getenv_re : Re
  getenv_re = seq start_anchor (
      any_of (iword (codes "os.getenv(")) (
        iword (codes "getenv(")
        ∷ ilit (codes "process.env") (word_end word_char)
        ∷ ilit (codes "import.meta.env") (word_end word_char)
        ∷ []))

unfoldable pub getenv_literal_re : Re
getenv_literal_re = seq (alt (iword (codes "getenv")) (iword (codes "environ.get"))) (
    spaces (
      lit (codes "(") (
        seq (at_least (λ c. not (c == b')' || c == 10)) 0) (
          lit (codes ",") (
            spaces (
              seq (cls (one_of quote_mark)) (
                seq (at_least (λ c. not (one_of quote_mark c || c == 10)) 4)
                  (cls (one_of quote_mark)))))))))

unfoldable pub bearer_re : Re
bearer_re = ilit (codes "authoriz") (
    seq (alt (iword (codes "ation")) (iword (codes "e"))) (
      optional quote_mark (
        spaces (
          seq (cls (one_of (codes ":="))) (
            spaces (
              optional quote_mark (
                spaces (
                  seq (alt (iword (codes "bearer")) (iword (codes "basic"))) (
                    seq (at_least is_space 1) (
                      between (λ c. is_alnum (fold_case c) || one_of (codes "+/=._-") c) 8
                        4096))))))))))
