-- ===== src/Auth/Consumption.antt =====
-- The challenges of packages/services/src/db/repository.ts, which are consumed once.
use aurka.Prelude.{
  ℕ, ◌≡◌, refl, sym, ap, ◌∙◌, subst, inl, inr, Bool, true, false, List, [], ◌∷◌, Option, none, some,
  Result, ok, err, some_injective, ok-injective, Bool-cases, Option-cases, if◌then◌else◌, ltb,
}
use aurka.Prelude.Text.{Text, text_eq, text_eq→eq}
use aurka.Auth.{
  AuthChallenge, AuthError, duplicate_key, find_challenge, save_auth_challenge, is_open,
  set_consumed, consume_found, consume_auth_challenge,
}

abbrev pub is_consumed : AuthChallenge → Bool
is_consumed row = elim row.consumed_at [ none ↦ false | some t ↦ true ]

-- The challenge is stored and consumed.
pub record IsConsumed (rows : List AuthChallenge) (id : Text) : Type 0 where
  pub row : AuthChallenge
  pub found : find_challenge id rows ≡ some row
  pub consumed : is_consumed row ≡ true

closed_of :
    (o : Option ℕ) (b : Bool)
    → elim o [ none ↦ false | some t ↦ true ] ≡ true
    → elim o [ none ↦ b | some t ↦ false ] ≡ false
closed_of none b h = cc
closed_of (some t) b h = refl

consumed-closed : (row : AuthChallenge) (at : ℕ) → is_consumed row ≡ true → is_open row at ≡ false
consumed-closed row at h = closed_of row.consumed_at (ltb at row.expires_at) h

-- The row after an update that selects it.
abbrev changed : ℕ → AuthChallenge → AuthChallenge
changed at row = if is_open row at then record row { consumed_at = some at } else row

changed_id : (at : ℕ) (row : AuthChallenge) → (changed at row).id ≡ row.id
changed_id at row = elim (Bool-cases (is_open row at)) [
  | inl is_free ↦ rw is_free refl
  | inr closed ↦ rw closed refl
]

find-set :
    (id : Text) (at : ℕ) (rows : List AuthChallenge) (row : AuthChallenge)
    → find_challenge id rows ≡ some row
    → find_challenge id (set_consumed id at rows) ≡ some (changed at row)
unfolding find_challenge set_consumed
find-set id at [] row found = cc
find-set id at (r ∷ rows) row found = elim (Bool-cases (text_eq r.id id)) [
  | inl same ↦
      let same_id : text_eq (changed at r).id id ≡ true =
        ap (λ t. text_eq t id) (changed_id at r) ∙ same in
      rw (same, same_id) (ap (λ x. some (changed at x)) (some_injective (rw same at found)))
  | inr other ↦ rw (other, other) (find-set id at rows row (rw other at found))
]

-- An update by another key.
find-set_other :
    (id other : Text) (at : ℕ) (rows : List AuthChallenge) (row : AuthChallenge)
    → text_eq other id ≡ false
    → find_challenge id rows ≡ some row
    → find_challenge id (set_consumed other at rows) ≡ some row
unfolding find_challenge set_consumed
find-set_other id other at [] row different found = cc
find-set_other id other at (r ∷ rows) row different found = elim (Bool-cases (text_eq r.id other)) [
  | inl same ↦
      let not_id : text_eq r.id id ≡ false = rw (text_eq→eq r.id other same) different in
      let changed_not_id : text_eq (changed at r).id id ≡ false =
        ap (λ t. text_eq t id) (changed_id at r) ∙ not_id in
      rw (same, changed_not_id) (rw not_id at found)
  | inr kept ↦ rw kept (elim (Bool-cases (text_eq r.id id)) [
    | inl here ↦ rw here (rw here at found)
    | inr there ↦ rw there (find-set_other id other at rows row different (rw there at found))
  ])
]

set-IsConsumed :
    (id other : Text) (at : ℕ) (rows : List AuthChallenge)
    → IsConsumed rows id
    → IsConsumed (set_consumed other at rows) id
set-IsConsumed id other at rows h = elim (Bool-cases (text_eq other id)) [
  | inl same ↦ rw (text_eq→eq other id same) record {
    row = h.row;
    found =
        find-set id at rows h.row h.found ∙ ap some (rw (consumed-closed h.row at h.consumed) refl);
    consumed = h.consumed;
  }
  | inr different ↦ record {
    row = h.row;
    found = find-set_other id other at rows h.row different h.found;
    consumed = h.consumed;
  }
]

-- Whatever it returns, a consumption leaves what has been consumed.
pub consume-IsConsumed :
    (id other : Text) (at : ℕ) (rows : List AuthChallenge)
    → IsConsumed rows id
    → IsConsumed (consume_auth_challenge rows other at).0 id
unfolding consume_auth_challenge
consume-IsConsumed id other at rows h = kept (find_challenge other rows)
  where
    kept : (o : Option AuthChallenge) → IsConsumed (consume_found rows other at o).0 id
    kept none = h
    kept (some row) = elim (Bool-cases (is_open row at)) [
      | inl is_free ↦ rw is_free (set-IsConsumed id other at rows h)
      | inr closed ↦ rw closed h
    ]

-- What has been consumed is not consumed again.
pub consume_again :
    (id : Text) (at : ℕ) (rows : List AuthChallenge)
    → IsConsumed rows id
    → consume_auth_challenge rows id at ≡ (rows, none)
unfolding consume_auth_challenge
consume_again id at rows h = rw (h.found, consumed-closed h.row at h.consumed) refl

-- A row that a consumption returns was open, and is consumed then.
pub record WasOpen (rows : List AuthChallenge) (id : Text) (at : ℕ)
    (consumption : List AuthChallenge × Option AuthChallenge) (c : AuthChallenge) : Type 0 where
  pub row : AuthChallenge
  pub found : find_challenge id rows ≡ some row
  pub is_free : is_open row at ≡ true
  pub returned : c ≡ record row { consumed_at = some at }
  pub after : IsConsumed consumption.0 id

consume_found-WasOpen :
    (id : Text) (at : ℕ) (rows : List AuthChallenge) (c : AuthChallenge) (o : Option AuthChallenge)
    → find_challenge id rows ≡ o
    → (consume_found rows id at o).1 ≡ some c
    → WasOpen rows id at (consume_found rows id at o) c
consume_found-WasOpen id at rows c none found e = cc
consume_found-WasOpen id at rows c (some row) found e = elim (Bool-cases (is_open row at)) [
  | inl is_free ↦
      let consumed_row : changed at row ≡ record row { consumed_at = some at } = rw is_free refl in
      let stored : find_challenge id (set_consumed id at rows)
          ≡ some (record row { consumed_at = some at }) =
        find-set id at rows row found ∙ ap some consumed_row in
      rw is_free record {
        row = row;
        found = found;
        is_free = is_free;
        returned = some_injective (sym (rw is_free at e) ∙ stored);
        after = record {
          row = record row { consumed_at = some at };
          found = stored;
          consumed = refl;
        };
      }
  | inr closed ↦ let nothing : ◌≡◌ {A = Option AuthChallenge} none (some c) = rw closed at e in cc
]

pub consume-WasOpen :
    (id : Text) (at : ℕ) (rows : List AuthChallenge) (c : AuthChallenge)
    → (consume_auth_challenge rows id at).1 ≡ some c
    → WasOpen rows id at (consume_auth_challenge rows id at) c
unfolding consume_auth_challenge
consume-WasOpen id at rows c e = consume_found-WasOpen id at rows c (find_challenge id rows) refl e

insert-IsConsumed :
    (id : Text) (c : AuthChallenge) (rows : List AuthChallenge)
    → find_challenge c.id rows ≡ none
    → IsConsumed rows id
    → IsConsumed (c ∷ rows) id
unfolding find_challenge
insert-IsConsumed id c rows absent h = elim (Bool-cases (text_eq c.id id)) [
  | inl same ↦
      let lost : find_challenge id rows ≡ none = rw (text_eq→eq c.id id same) at absent in
      let clash : ◌≡◌ {A = Option AuthChallenge} none (some h.row) = sym lost ∙ h.found in cc
  | inr other ↦ record { row = h.row; found = rw other h.found; consumed = h.consumed }
]

pub save-IsConsumed :
    (id : Text) (c : AuthChallenge) (rows after : List AuthChallenge)
    → save_auth_challenge c rows ≡ ok after
    → IsConsumed rows id
    → IsConsumed after id
unfolding save_auth_challenge
save-IsConsumed id c rows after e h = elim (Option-cases (find_challenge c.id rows)) [
  | inl absent ↦
      subst (λ rs. IsConsumed rs id) (ok-injective (rw absent at e))
        (insert-IsConsumed id c rows absent h)
  | inr (other, found) ↦
      let refused : ◌≡◌ {A = Result AuthError (List AuthChallenge)} (err duplicate_key) (ok after) =
        rw found at e in
      cc
]
