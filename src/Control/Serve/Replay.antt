-- ===== src/Control/Serve/Replay.antt =====
-- The remembered transaction of a service, and what an exact repetition of it does.
use hype_r_io_vm.Base.{
  ℕ, ◌≡◌, inl, inr, refl, sym, ap, ◌∙◌, subst, Bool, true, ◌&&◌, ltb, if◌then◌else◌, Option, none,
  some, List, [], ◌∷◌, arith, Bool-cases, Option-cases,
}
use hype_r_io_vm.Session.{Session, Admission, refused, same, rebound}
use hype_r_io_vm.Session.Order.{Admits, admit-Admits}
use hype_r_io_vm.Service.State.{invalid}
use hype_r_io_vm.Wire.{header_of}
use hype_r_io_vm.Control.Dispatch.{Outside, plain}
use hype_r_io_vm.Control.Serve.Steps.{serve_induct}
use hype_r_io_vm.Control.Serve.Order.{dispatch-SameEpochs, set_epoch_binding}
use hype_r_io_vm.Control.Serve.{
  Server, Reply, Round, is_admitted, replayed, same_bytes, reply_to, adopt, admit_message,
  answer_fresh, settle, respond, serve,
}

same_bytes_refl : (m : List ℕ) → same_bytes m m ≡ true
unfolding same_bytes
same_bytes_refl [] = refl
same_bytes_refl (x ∷ m) = let rest = same_bytes_refl m in ground arith

some_payload : {A : Type 0} → A → Option A → A
some_payload d none = d
some_payload d (some a) = a

-- What is remembered is of the session's binding and has its last transaction.
pub record Remembers (v : Server) (p : List ℕ × Reply) : Type 0 where
  pub binding : v.session.binding ≡ (header_of p.0).binding
  pub transaction : v.last_transaction ≡ (header_of p.0).transaction

abbrev pub IsRemembering : Server → Type 0
IsRemembering v = (p : List ℕ × Reply) → v.remembered ≡ some p → Remembers v p

-- A message whose binding is the session's is refused, or leaves the session.
adopt_repeat :
    (v : Server) (a : Admission) (t : Session) (binding epoch : ℕ) (hello idle : Bool) (device : ℕ)
    → v.session.binding ≡ binding
    → Admits v.session binding epoch hello idle device a t
    → adopt v (a, t) ≡ v
adopt_repeat v refused t binding epoch hello idle device b (e, _) =
    ap (λ s. record v { session = s }) e
adopt_repeat v same t binding epoch hello idle device b (e, _, _, _) =
    ap (λ s. record v { session = s }) e
adopt_repeat v rebound t binding epoch hello idle device b (_, less, _, _, _, _, _, _) =
    absurd (omega (arith, less, b))

replayed_repeat :
    (v : Server) (m : List ℕ) (reply : Reply)
    → v.remembered ≡ some (m, reply)
    → v.last_transaction ≡ (header_of m).transaction
    → replayed v (header_of m).transaction m ≡ some reply
unfolding replayed
replayed_repeat v m reply old last =
    let again = same_bytes_refl m in rw old (rw last (rw again (ground arith)))

settle_repeat :
    (x : Outside) (v : Server) (m : List ℕ) (reply : Reply) (a : Admission × Session)
    → adopt v a ≡ v
    → replayed v (header_of m).transaction m ≡ some reply
    → settle x v m a ≡ (if is_admitted a.0 then reply else reply_to (header_of m) invalid plain, v)
unfolding settle answer_fresh
settle_repeat x v m reply a e old = elim (Bool-cases (is_admitted a.0)) [
  | inl admitted ↦ rw admitted (rw e (rw old refl))
  | inr denied ↦ rw denied (rw e refl)
]

-- With what is remembered being of the session's binding and last transaction, an exact
-- repetition of the remembered message carries nothing out: its reply is the remembered one, or
-- INVALID where the admission refuses it, and the server is unchanged.
pub respond_repeat :
    (x : Outside) (v : Server) (m : List ℕ) (reply : Reply)
    → IsRemembering v
    → v.remembered ≡ some (m, reply)
    → respond x v m ≡ (
      if is_admitted (admit_message v m).0 then reply else reply_to (header_of m) invalid plain,
      v,
    )
unfolding respond admit_message
respond_repeat x v m reply keeps old =
    let r = keeps (m, reply) old in
    let (a, t) = admit_message v m in
    settle_repeat x v m reply (a, t)
      (adopt_repeat v a t _ _ _ _ _ r.binding (admit-Admits v.session _ _ _ _ _))
      (replayed_repeat v m reply old r.transaction)

adopt-IsRemembering :
    (v : Server) (a : Admission) (t : Session) (binding epoch : ℕ) (hello idle : Bool) (device : ℕ)
    → Admits v.session binding epoch hello idle device a t
    → IsRemembering v
    → IsRemembering (adopt v (a, t))
adopt-IsRemembering v refused t binding epoch hello idle device (e, _) keeps =
    subst IsRemembering (sym (ap (λ s. record v { session = s }) e)) keeps
adopt-IsRemembering v same t binding epoch hello idle device (e, _, _, _) keeps =
    subst IsRemembering (sym (ap (λ s. record v { session = s }) e)) keeps
adopt-IsRemembering v rebound t binding epoch hello idle device _ keeps =
    λ p h. absurd (ground (arith, h))

adopt_binding :
    (v : Server) (a : Admission) (t : Session) (binding epoch : ℕ) (hello idle : Bool) (device : ℕ)
    → Admits v.session binding epoch hello idle device a t
    → is_admitted a ≡ true
    → (adopt v (a, t)).session.binding ≡ binding
adopt_binding v refused t binding epoch hello idle device _ h = absurd (ground (arith, h))
adopt_binding v same t binding epoch hello idle device (e, _, b, _) h = ap (λ s. s.binding) e ∙ b
adopt_binding v rebound t binding epoch hello idle device (_, _, _, _, b, _, _, _) h = b

pub remember_new :
    (w : Server) (p : List ℕ × Reply) → w.remembered ≡ some p → Remembers w p → IsRemembering w
unfolding some_payload
remember_new w p e r q h = subst (Remembers w) (ap (some_payload p) (sym e ∙ h)) r

answer_fresh-IsRemembering :
    (x : Outside) (admitted : Bool) (m : List ℕ) (v : Server)
    → (admitted ≡ true → v.session.binding ≡ (header_of m).binding)
    → IsRemembering v
    → IsRemembering (answer_fresh x admitted m v).1
unfolding answer_fresh
answer_fresh-IsRemembering x admitted m v bound keeps =
    let h = header_of m in
    let kept = (dispatch-SameEpochs x h.operation m v.session v.state).0 in
    elim (Bool-cases (admitted && ltb v.last_transaction h.transaction)) [
      | inl new ↦ rw new (
          remember_new _ (m, _) refl
            (record {
              binding = set_epoch_binding _ _ _ ∙ kept ∙ bound (ground arith);
              transaction = refl;
            }))
      | inr old ↦ rw old keeps
    ]

respond-IsRemembering :
    (x : Outside) (v : Server) (m : List ℕ) → IsRemembering v → IsRemembering (respond x v m).1
unfolding respond settle admit_message
respond-IsRemembering x v m keeps =
    let (a, t) = admit_message v m in
    let w = adopt v (a, t) in
    let admits = admit-Admits v.session _ _ _ _ _ in
    let adopted = adopt-IsRemembering v a t _ _ _ _ _ admits keeps in
    let answered =
      answer_fresh-IsRemembering x (is_admitted a) m w (adopt_binding v a t _ _ _ _ _ admits)
        adopted in
    elim (Option-cases (if is_admitted a then replayed w (header_of m).transaction m else none)) [
      | inl new ↦ rw new answered
      | inr (reply, old) ↦ rw old adopted
    ]

-- Every run keeps it that what is remembered is of the session's binding and has the last
-- transaction.
pub serve-IsRemembering :
    (rs : List Round) (v : Server) → IsRemembering v → IsRemembering (serve rs v).1
serve-IsRemembering rs v keeps =
    serve_induct IsRemembering (λ x w m h. respond-IsRemembering x w m h) rs v keeps
