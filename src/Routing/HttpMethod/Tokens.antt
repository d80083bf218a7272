-- ===== src/Routing/HttpMethod/Tokens.antt =====
-- The method tokens of a rule file.
use apimock_rs.Prelude.{
  ◌≡◌, refl, sym, ap, ◌∙◌, ◌↔◌, none, some, List, [], ◌∷◌, inl, inr, All, Bool-cases, none-ne-some,
  some-inj,
}
use apimock_rs.Prelude.Text.{Text, text_eq, text_eq_iff}
use apimock_rs.Routing.HttpMethod.{
  HttpMethod, get, post, put, delete, patch, matchable, as_str, find_name, parse_config_token,
  unmatchable_reason,
}

own_token : (m : HttpMethod) → parse_config_token (as_str m) ≡ some m
unfolding parse_config_token find_name as_str text_eq
own_token get = refl
own_token post = refl
own_token put = refl
own_token delete = refl
own_token patch = refl

-- A token that is looked up stands in the table.
token_of :
    (token : Text) (m : HttpMethod) (rows : List (Text × HttpMethod))
    → All (λ row. as_str row.1 ≡ row.0) rows
    → find_name token rows ≡ some m
    → as_str m ≡ token
unfolding find_name
token_of token m [] h e = absurd (none-ne-some m e)
token_of token m ((name, v) ∷ rows) h e = elim (Bool-cases (text_eq name token)) [
  | inl f ↦ ap as_str (sym (some-inj v m (rw f at e))) ∙ h.0 ∙ (text_eq_iff name token).0 f
  | inr f ↦ token_of token m rows h.1 (rw f at e)
]

named : All (λ row. as_str row.1 ≡ row.0) matchable
unfolding as_str
named = (refl, (refl, (refl, (refl, (refl, tt)))))

no_reason : (m : HttpMethod) → unmatchable_reason (as_str m) ≡ none
unfolding unmatchable_reason find_name as_str text_eq
no_reason get = refl
no_reason post = refl
no_reason put = refl
no_reason delete = refl
no_reason patch = refl

-- A rule file names a method by its own token and by no other text, in upper case, and no such token is
-- among the excluded ones, which have a reason.
pub parse_config_token_lem :
    ((token : Text) (m : HttpMethod) → (parse_config_token token ≡ some m) ↔ (as_str m ≡ token))
    × ((m : HttpMethod) → unmatchable_reason (as_str m) ≡ none)
unfolding parse_config_token
parse_config_token_lem = (
  (λ token m. (token_of token m matchable named, λ e. ap parse_config_token (sym e) ∙ own_token m)),
  no_reason,
)
