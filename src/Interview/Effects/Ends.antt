-- ===== src/Interview/Effects/Ends.antt =====
-- Postconditions of actions: `Ends E Q r` says that a run `r` left a database with `E` if it threw,
-- and a value and a database with `Q` if it returned. One rule for each way to go on.
use interview_coach.Base.{
  ◌≡◌, refl, sym, subst, Bool, true, false, Option, none, some, List, if◌then◌else◌,
}
use interview_coach.Db.Models.{Db}
use interview_coach.Db.Rows.{DbResult, committed, failed}
use interview_coach.Interview.Effects.{
  M, Ran, Result, returned, threw, Exn, Wire, continue, pure, throw, require, reads, tell, guard,
  insert, update, stored, ◌>>=◌, ◌>>◌,
}

module _ {V A : Type 0} where
  abbrev pub EndsAt : (Db V → Type 0) → (A → Db V → Type 0) → Db V → Result A → Type 0
  EndsAt E Q db (threw e) = E db
  EndsAt E Q db (returned a) = Q a db

  -- Tactics read the field of a hypothesis, and a proof gives it.
  pub record Ends (E : Db V → Type 0) (Q : A → Db V → Type 0) (r : Ran V A) : Type 0 where
    pub at : EndsAt E Q r.db r.result

module _ {V A B : Type 0} (E : Db V → Type 0) (Q : B → Db V → Type 0) where
  Ends-continue :
      (P : A → Db V → Type 0) (evs : List (Wire V)) (db : Db V) (r : Result A) (k : A → M V B)
      → EndsAt E P db r
      → ((a : A) → P a db → Ends E Q (k a db))
      → Ends E Q (continue evs db r k)
  unfolding continue
  Ends-continue P evs db (threw e) k h next = record { at = h }
  Ends-continue P evs db (returned a) k h next = record { at = (next a h).at }

  -- An earlier action is known by its own postcondition.
  pub Ends-bind :
      (P : A → Db V → Type 0) (m : M V A) (k : A → M V B) (db : Db V)
      → Ends E P (m db)
      → ((a : A) (d : Db V) → P a d → Ends E Q (k a d))
      → Ends E Q ((m >>= k) db)
  unfolding ◌>>=◌
  Ends-bind P m k db h next =
      Ends-continue P (m db).events (m db).db (m db).result k h.at (λ a. next a (m db).db)

  -- An earlier action that only computes.
  pub Ends-bind_same :
      (m : M V A) (k : A → M V B) (db : Db V)
      → Ends E (λ _ d. d ≡ db) (m db)
      → ((a : A) → Ends E Q (k a db))
      → Ends E Q ((m >>= k) db)
  Ends-bind_same m k db h next =
      Ends-bind (λ _ d. d ≡ db) m k db h (λ a d e. subst (λ x. Ends E Q (k a x)) (sym e) (next a))

  -- The same, with what is known of the value.
  pub Ends-bind_known :
      (P : A → Type 0) (m : M V A) (k : A → M V B) (db : Db V)
      → Ends E (λ a d. (d ≡ db) × P a) (m db)
      → ((a : A) → P a → Ends E Q (k a db))
      → Ends E Q ((m >>= k) db)
  Ends-bind_known P m k db h next =
      Ends-bind (λ a d. (d ≡ db) × P a) m k db h
        (λ a d e. subst (λ x. Ends E Q (k a x)) (sym e.0) (next a e.1))

  -- A value that comes from outside, or an error with the database as it is.
  pub Ends-stream :
      (evs : List (Wire V)) (db : Db V) (r : Result A) (k : A → M V B)
      → E db
      → ((a : A) → Ends E Q (k a db))
      → Ends E Q (continue evs db r k)
  unfolding continue
  Ends-stream evs db (threw e) k h next = record { at = h }
  Ends-stream evs db (returned a) k h next = record { at = (next a).at }

  pub Ends-require :
      (o : Option A) (e : Exn) (k : A → M V B) (db : Db V)
      → E db
      → ((a : A) → o ≡ some a → Ends E Q (k a db))
      → Ends E Q ((require o e >>= k) db)
  unfolding require ◌>>=◌
  Ends-require none e k db h next = record { at = h }
  Ends-require (some a) e k db h next = record { at = (next a refl).at }

  -- A query and what is told on the stream leave the database alone.
  pub Ends-reads :
      (f : Db V → A) (k : A → M V B) (db : Db V)
      → Ends E Q (k (f db) db)
      → Ends E Q ((reads f >>= k) db)
  unfolding reads ◌>>=◌
  Ends-reads f k db h = record { at = h.at }

module _ {V A : Type 0} (E E' : Db V → Type 0) (Q : A → Db V → Type 0) where
  EndsAt-weaken : (d : Db V) (r : Result A) → EndsAt E' Q d r → (E' d → E d) → EndsAt E Q d r
  EndsAt-weaken d (returned a) h w = h
  EndsAt-weaken d (threw e) h w = w h

module _ {V B : Type 0} (E : Db V → Type 0) (Q : B → Db V → Type 0) where
  pub Ends-tell :
      (evs : List (Wire V)) (k : M V B) (db : Db V)
      → Ends E Q (k db)
      → Ends E Q ((tell evs >> k) db)
  unfolding tell ◌>>◌
  Ends-tell evs k db h = record { at = h.at }

  pub Ends-update :
      (f : Db V → Db V × Bool) (k : M V B) (db : Db V)
      → Ends E Q (k (f db).0)
      → Ends E Q ((update f >> k) db)
  unfolding update ◌>>◌
  Ends-update f k db h = record { at = h.at }

  pub Ends-pure : (b : B) (db : Db V) → Q b db → Ends E Q (pure b db)
  unfolding pure
  Ends-pure b db h = record { at = h }

  pub Ends-throw : (e : Exn) (db : Db V) → E db → Ends E Q (throw e db)
  unfolding throw
  Ends-throw e db h = record { at = h }

  -- The same as the last step.
  pub Ends-require_last :
      (o : Option B) (e : Exn) (db : Db V)
      → E db
      → ((b : B) → o ≡ some b → Q b db)
      → Ends E Q (require o e db)
  unfolding require pure throw
  Ends-require_last none e db h next = record { at = h }
  Ends-require_last (some b) e db h next = record { at = next b refl }

  pub Ends-guard :
      (b : Bool) (e : Exn) (k : M V B) (db : Db V)
      → E db
      → (b ≡ true → Ends E Q (k db))
      → Ends E Q ((guard b e >> k) db)
  unfolding guard ◌>>◌
  Ends-guard true e k db h next = record { at = (next refl).at }
  Ends-guard false e k db h next = record { at = h }

  Ends-stored :
      (o : DbResult (Db V)) (k : M V B) (db : Db V)
      → E db
      → ((d : Db V) → o ≡ committed d → Ends E Q (k d))
      → Ends E Q (continue (stored db o).events (stored db o).db (stored db o).result (λ _. k))
  unfolding stored continue
  Ends-stored (committed d) k db h next = record { at = (next d refl).at }
  Ends-stored (failed _) k db h next = record { at = h }

  Ends-committed :
      (k : M V B) (db d : Db V)
      → Ends E Q (k d)
      → Ends E Q (
          continue
            (stored db (committed d)).events
            (stored db (committed d)).db
            (stored db (committed d)).result
            (λ _. k))
  unfolding stored continue
  Ends-committed k db d h = record { at = h.at }

  pub Ends-insert :
      (f : Db V → DbResult (Db V)) (k : M V B) (db : Db V)
      → E db
      → ((d : Db V) → f db ≡ committed d → Ends E Q (k d))
      → Ends E Q ((insert f >> k) db)
  unfolding insert ◌>>◌
  Ends-insert f k db h next = Ends-stored (f db) k db h next

  -- An insert that is known to go through.
  pub Ends-insert_known :
      (f : Db V → DbResult (Db V)) (k : M V B) (db d : Db V)
      → f db ≡ committed d
      → Ends E Q (k d)
      → Ends E Q ((insert f >> k) db)
  unfolding insert ◌>>◌
  Ends-insert_known f k db d e h =
      subst
        (λ o.
          Ends E Q (continue (stored db o).events (stored db o).db (stored db o).result (λ _. k)))
        (sym e) (Ends-committed k db d h)

  -- An insert that commits one database, if it goes through.
  pub Ends-insert_to :
      (f : Db V → DbResult (Db V)) (k : M V B) (db d : Db V)
      → ((d' : Db V) → f db ≡ committed d' → d' ≡ d)
      → E db
      → Ends E Q (k d)
      → Ends E Q ((insert f >> k) db)
  Ends-insert_to f k db d to e h =
      Ends-insert f k db e (λ d' c. subst (λ x. Ends E Q (k x)) (sym (to d' c)) h)

  -- An update that is known to give one database.
  pub Ends-update_to :
      (f : Db V → Db V × Bool) (k : M V B) (db d : Db V)
      → (f db).0 ≡ d
      → Ends E Q (k d)
      → Ends E Q ((update f >> k) db)
  Ends-update_to f k db d to h = Ends-update f k db (subst (λ x. Ends E Q (k x)) (sym to) h)

  pub Ends-if :
      (b : Bool) (m n : M V B) (db : Db V)
      → (b ≡ true → Ends E Q (m db))
      → (b ≡ false → Ends E Q (n db))
      → Ends E Q ((if b then m else n) db)
  Ends-if true m n db h k = h refl
  Ends-if false m n db h k = k refl

  pub Ends-weaken :
      (E' : Db V → Type 0) (r : Ran V B) → Ends E' Q r → ((d : Db V) → E' d → E d) → Ends E Q r
  Ends-weaken E' r h w = record { at = EndsAt-weaken E E' Q r.db r.result h.at (w r.db) }

  -- What a postcondition says of a run whose end is known.
  pub Ends-threw : (r : Ran V B) (e : Exn) → Ends E Q r → r.result ≡ threw e → E r.db
  Ends-threw r e h x = subst (EndsAt E Q r.db) x h.at

  pub Ends-returned : (r : Ran V B) (b : B) → Ends E Q r → r.result ≡ returned b → Q b r.db
  Ends-returned r b h x = subst (EndsAt E Q r.db) x h.at

-- The same holds of a run, however it ends.
pub Ends-either : {V B : Type 0} (E : Db V → Type 0) (r : Ran V B) → Ends E (λ b d. E d) r → E r.db
Ends-either {V} {B} E r h = by_result r.result h.at
  where
    by_result : (x : Result B) → EndsAt E (λ b d. E d) r.db x → E r.db
    by_result (returned b) k = k
    by_result (threw e) k = k
