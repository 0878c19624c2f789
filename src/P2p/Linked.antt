-- ===== src/P2p/Linked.antt =====
-- A table of records and the pointers of their endpoints into it, for p2p-repos.ts: the requests under
-- `connectReq` with `connectFrom` and `connectTo`, the sessions under `p2pSession` with `p2pPeer`.
use we_chat_ai.Base.{
  ℕ, ◌≡◌, sym, ◌∙◌, ap, ite, if_pos, if_neg, arith, Option, none, some, Text, text_discrete,
}
use mathlib.Core.Path.{subst}
use we_chat_ai.P2p.Store.{Endpoint, Timed, live}

pub live-some :
    {A : Type 0} (now : ℕ) (x : Option (Timed A)) (a : Timed A) → live now x ≡ some a → x ≡ some a
live-some now none a h = ground arith
live-some now (some x) a h = ground arith

-- An entry that is left at a time leaves every entry of the same deadline.
pub live-same_deadline :
    {A B : Type 0} (now : ℕ) (x : Option (Timed A)) (a : A) (b : B) (dl : ℕ)
    → live now x ≡ some (a, dl)
    → live now (some (b, dl)) ≡ some (b, dl)
live-same_deadline now none a b dl h = ground arith
live-same_deadline now (some x) a b dl h = ground arith

module _ {C : Type 0} (id_of : C → Text) (On : C → Endpoint → Type 0) where
  -- Every record stands under its id, its endpoints point to it until its deadline, and every pointer leads
  -- to a record that has the endpoint.
  pub record Linked (table : Text → Option (Timed C)) (pointer : Endpoint → Option (Timed Text))
      : Type 0 where
    pub names : (id : Text) (c : C) (dl : ℕ) → table id ≡ some (c, dl) → id_of c ≡ id
    pub forth :
        (id : Text) (c : C) (dl : ℕ) (k : Endpoint)
        → table id ≡ some (c, dl)
        → On c k
        → pointer k ≡ some (id, dl)
    pub back :
        (k : Endpoint) (id : Text) (dl : ℕ)
        → pointer k ≡ some (id, dl)
        → (c : C) × (table id ≡ some (c, dl)) × On c k

  module _ {table : Text → Option (Timed C)} {pointer : Endpoint → Option (Timed Text)}
      (l : Linked table pointer) where
    pub live-Linked : (now : ℕ) → Linked (λ id. live now (table id)) (λ k. live now (pointer k))
    live-Linked now = record {
      names = λ id c dl h. l.names id c dl (live-some now (table id) (c, dl) h);
      forth = λ id c dl k h on.
          ap (live now) (l.forth id c dl k (live-some now (table id) (c, dl) h) on)
          ∙ live-same_deadline now (table id) c id dl h;
      back = λ k id dl h.
          let (c, t, on) = l.back k id dl (live-some now (pointer k) (id, dl) h) in
          (c, ap (live now) t ∙ live-same_deadline now (pointer k) id c dl h, on);
    }

    module _ (on_dec : (c : C) (k : Endpoint) → Dec (On c k)) (c : C)
        (table' : Text → Option (Timed C)) (pointer' : Endpoint → Option (Timed Text))
        (kept : (k : Endpoint) → ¬ On c k → pointer' k ≡ pointer k) where
      -- Without one record and the pointers of its endpoints, the table is linked.
      pub del-Linked :
          (dl : ℕ)
          → table (id_of c) ≡ some (c, dl)
          → ((id : Text) → table' id ≡ ite (text_discrete (id_of c) id) none (table id))
          → ((k : Endpoint) → On c k → pointer' k ≡ none)
          → Linked table' pointer'
      del-Linked dl here table_eq gone = record {
        names = λ id x dx h. l.names id x dx (still id x dx h).1;
        forth = λ id x dx k h on. elim (on_dec c k) [
          | yes p ↦ absurd (
              (still id x dx h).0 (
                points (l.forth (id_of c) c dl k here p)
                  (l.forth id x dx k (still id x dx h).1 on)))
          | no n ↦ kept k n ∙ l.forth id x dx k (still id x dx h).1 on
        ];
        back = λ k id dx h. elim (on_dec c k) [
          | yes p ↦ absurd (none-some (sym (gone k p) ∙ h))
          | no n ↦
              let (x, t, on) = l.back k id dx (sym (kept k n) ∙ h) in
              (
                x,
                table_eq id
                    ∙ if_neg (text_discrete (id_of c) id) (λ e. n (same_record e t on)) none _
                    ∙ t,
                on,
              )
        ];
      }
        where
          none-some : {A : Type 0} {a : A} → ¬ (none ≡ some a)
          none-some e = cc

          points :
              {k : Endpoint} {i j : Text} {d e : ℕ}
              → pointer k ≡ some (i, d)
              → pointer k ≡ some (j, e)
              → i ≡ j
          points p q = cc

          still :
              (id : Text) (x : C) (dx : ℕ)
              → table' id ≡ some (x, dx)
              → (¬ (id_of c ≡ id)) × (table id ≡ some (x, dx))
          still id x dx h = elim (text_discrete (id_of c) id) [
            | yes p ↦
                absurd
                  (none-some (sym (table_eq id ∙ if_pos (text_discrete (id_of c) id) p none _) ∙ h))
            | no n ↦ (n, sym (table_eq id ∙ if_neg (text_discrete (id_of c) id) n none _) ∙ h)
          ]

          same_record :
              {k : Endpoint} {id : Text} {x : C} {dx : ℕ}
              → id_of c ≡ id
              → table id ≡ some (x, dx)
              → On x k
              → On c k
          same_record {k} e t on = subst (λ (y : C). On y k) (cc) on

      -- With a new record whose endpoints had no pointer, the table is linked.
      pub put-Linked :
          (dl : ℕ)
          → table (id_of c) ≡ none
          → ((k : Endpoint) → On c k → pointer k ≡ none)
          → ((id : Text) → table' id ≡ ite (text_discrete (id_of c) id) (some (c, dl)) (table id))
          → ((k : Endpoint) → On c k → pointer' k ≡ some (id_of c, dl))
          → Linked table' pointer'
      put-Linked dl fresh free table_eq points = record {
        names = λ id x dx h. elim (text_discrete (id_of c) id) [
          | yes p ↦ ap id_of (sym (written id x dx p h).0) ∙ p
          | no n ↦ l.names id x dx (older id n ∙ h)
        ];
        forth = λ id x dx k h on. elim (text_discrete (id_of c) id) [
          | yes p ↦
              let (ex, ed) = written id x dx p h in
              points k (subst (λ (y : C). On y k) (sym ex) on) ∙ cc
          | no n ↦
              kept k (λ p. none-some (sym (free k p) ∙ l.forth id x dx k (older id n ∙ h) on))
              ∙ l.forth id x dx k (older id n ∙ h) on
        ];
        back = λ k id dx h. elim (on_dec c k) [
          | yes p ↦ (c, pointed k id dx (sym (points k p) ∙ h), p)
          | no n ↦
              let (x, t, on) = l.back k id dx (sym (kept k n) ∙ h) in
              (x, sym (older id (λ e. none-some (sym fresh ∙ ap table e ∙ t))) ∙ t, on)
        ];
      }
        where
          none-some : {A : Type 0} {a : A} → ¬ (none ≡ some a)
          none-some e = cc

          older : (id : Text) → ¬ (id_of c ≡ id) → table id ≡ table' id
          older id n = sym (table_eq id ∙ if_neg (text_discrete (id_of c) id) n (some (c, dl)) _)

          written :
              (id : Text) (x : C) (dx : ℕ)
              → id_of c ≡ id
              → table' id ≡ some (x, dx)
              → (c ≡ x) × (dl ≡ dx)
          written id x dx e h =
              let w =
                table_eq id ∙ if_pos (text_discrete (id_of c) id) e (some (c, dl)) (table id) in
              (cc, cc)

          pointed :
              (k : Endpoint) (id : Text) (dx : ℕ)
              → ◌≡◌ {A = Option (Timed Text)} (some (id_of c, dl)) (some (id, dx))
              → table' id ≡ some (c, dx)
          pointed k id dx e =
              let same_id : id_of c ≡ id = cc in
              let same_dl : dl ≡ dx = cc in
              table_eq id
              ∙ if_pos (text_discrete (id_of c) id) same_id (some (c, dl)) (table id)
              ∙ ap (λ (d : ℕ). some (c, d)) same_dl
