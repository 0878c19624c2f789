-- ===== src/P2p/Codes.antt =====
-- `createBindCode` and `consumeBindCode`.
use mathlib.Core.Path.{subst, ap₂}
use we_chat_ai.Base.{
  Bool-cases, ◌≡◌, inl, inr, refl, sym, ◌∙◌, ap, true, false, Option, none, some, List, [], ◌∷◌,
  Text, ℕ, text_discrete, All,
}
use we_chat_ai.P2p.Store.{BindCodeRecord, Timed, Store, put, del, untimed, is_present, deadline}
use we_chat_ai.P2p.Repos.{create_bind_code, consumed, consume_bind_code}
use we_chat_ai.P2p.Endings.{same_some, none-some, del-here, del-there}
use we_chat_ai.P2p.Starts.{put-here, put-there}

-- the store with a code in it
abbrev pub with_code : Text → Timed BindCodeRecord → Store → Store
with_code code rec st = record st { bind_code = put text_discrete code rec st.bind_code }

abbrev pub code_record : Text → Text → Text → BindCodeRecord
code_record code user_id username = record { code = code; user_id = user_id; username = username }

module _ (now : ℕ) (user_id username : Text) (ttl_sec : ℕ) where
  -- A code is made under the first of the offered ones that nobody has, and there is none only where all of
  -- them are taken; no other code changes.
  pub data CodeResult (codes : List Text) (st : Store) (got : Store × Option BindCodeRecord)
      : Type 0 where
    all_taken :
        got ≡ (st, none)
        → All (λ code. is_present (st.bind_code code) ≡ true) codes
        → CodeResult codes st got
    given :
        (code : Text)
        → st.bind_code code ≡ none
        → got ≡ (
          with_code code (code_record code user_id username, deadline now 30 ttl_sec) st,
          some (code_record code user_id username),
        )
        → CodeResult codes st got

  absent : {A : Type 0} (x : Option A) → is_present x ≡ false → x ≡ none
  absent none h = refl
  absent (some a) h = absurd (cc)

  pub create_bind_code-CodeResult :
      (codes : List Text) (st : Store)
      → CodeResult codes st (create_bind_code now user_id username ttl_sec codes st)
  unfolding create_bind_code
  create_bind_code-CodeResult [] st = all_taken refl tt
  create_bind_code-CodeResult (code ∷ codes) st =
      elim (Bool-cases (is_present (st.bind_code code))) [
        | inl t ↦ rw t (go t _ (create_bind_code-CodeResult codes st))
        | inr f ↦ rw f (given code (absent (st.bind_code code) f) refl)
      ]
    where
      go :
          is_present (st.bind_code code) ≡ true
          → (got : Store × Option BindCodeRecord) → CodeResult codes st got
          → CodeResult (code ∷ codes) st got
      go t got (all_taken e h) = all_taken e (t, h)
      go t got (given c n e) = given c n e

consume_present :
    (code : Text) (st : Store) (rec : Timed BindCodeRecord)
    → st.bind_code code ≡ some rec
    → consume_bind_code code st
      ≡ (record st { bind_code = del text_discrete code st.bind_code }, some rec.0)
unfolding consume_bind_code
consume_present code st (rec, dl) h =
    ap (λ (x : Option (Timed BindCodeRecord)). consumed code st (untimed x)) h

consume_absent :
    (code : Text) (st : Store) → st.bind_code code ≡ none → consume_bind_code code st ≡ (st, none)
unfolding consume_bind_code
consume_absent code st h =
    ap (λ (x : Option (Timed BindCodeRecord)). consumed code st (untimed x)) h

-- what reading a code back gives, in the store that is left and as its result
abbrev pub ReadBack : Text → Text → BindCodeRecord → Store → Store × Option BindCodeRecord → Type 0
ReadBack user_id username rec st got =
    (got.1 ≡ some rec)
    × (rec.user_id ≡ user_id)
    × (rec.username ≡ username)
    × (consume_bind_code rec.code got.0 ≡ (got.0, none))
    × ((code : Text) → got.0.bind_code code ≡ st.bind_code code)

given-ReadBack :
    (code user_id username : Text) (dl : ℕ) (st : Store)
    → st.bind_code code ≡ none
    → ReadBack user_id username
        (code_record code user_id username)
        st
        (consume_bind_code code (with_code code (code_record code user_id username, dl) st))
given-ReadBack code user_id username dl st free =
    subst (ReadBack user_id username rec st)
      (sym (
        consume_present code made (rec, dl)
          (put-here text_discrete code (rec, dl) st.bind_code code refl)))
      (
        refl,
        refl,
        refl,
        consume_absent code _ (del-here text_discrete code made.bind_code code refl),
        λ c. elim (text_discrete c code) [
          | yes e ↦ del-here text_discrete code made.bind_code c e ∙ sym (ap st.bind_code e ∙ free)
          | no n ↦
              del-there text_discrete code made.bind_code c n
              ∙ put-there text_discrete code (rec, dl) st.bind_code c n
        ],
      )
  where
    rec : BindCodeRecord
    rec = code_record code user_id username

    made : Store
    made = with_code code (rec, dl) st

-- A code that was made is read back once, as the record of its user; a second time it is gone, and the codes
-- of others stay as they were.
pub consume_bind_code-create :
    (now : ℕ) (user_id username : Text) (ttl_sec : ℕ) (codes : List Text) (st : Store)
    (rec : BindCodeRecord)
    → (create_bind_code now user_id username ttl_sec codes st).1 ≡ some rec
    → ReadBack user_id username rec st
        (consume_bind_code rec.code (create_bind_code now user_id username ttl_sec codes st).0)
consume_bind_code-create now user_id username ttl_sec codes st rec h =
    go _ (create_bind_code-CodeResult now user_id username ttl_sec codes st) h
  where
    go :
        (got : Store × Option BindCodeRecord)
        → CodeResult now user_id username ttl_sec codes st got
        → got.1 ≡ some rec
        → ReadBack user_id username rec st (consume_bind_code rec.code got.0)
    go got (all_taken e taken) q =
        absurd (none-some (sym (ap (λ (x : Store × Option BindCodeRecord). x.1) e) ∙ q))
    go got (given code free e) q =
        subst
          (λ (x : Store × BindCodeRecord).
            ReadBack user_id username x.1 st (consume_bind_code x.1.code x.0))
          (ap₂ (λ (x : Store) (y : BindCodeRecord). (x, y))
            (sym (ap (λ (x : Store × Option BindCodeRecord). x.0) e))
            (same_some (sym (ap (λ (x : Store × Option BindCodeRecord). x.1) e) ∙ q)))
          (given-ReadBack code user_id username (deadline now 30 ttl_sec) st free)
