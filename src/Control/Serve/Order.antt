-- ===== src/Control/Serve/Order.antt =====
-- The order of the transactions that a service carries out.
use hype_r_io_vm.Base.{
  ℕ, ◌<◌, ◌≡◌, ◌⊎◌, inl, inr, refl, sym, ap, ◌∙◌, subst, Bool, ◌&&◌, ltb, if◌then◌else◌, none, List,
  arith, Bool-cases, Option-cases,
}
use hype_r_io_vm.Session.{Session, Admission, refused, same, rebound, set_epoch, retire}
use hype_r_io_vm.Session.Order.{Admits, admit-Admits}
use hype_r_io_vm.Wire.{header_of}
use hype_r_io_vm.Control.Dispatch.{Outside, State, dispatch}
use hype_r_io_vm.Control.Serve.Steps.{serve_induct}
use hype_r_io_vm.Control.Serve.{
  Server, Round, is_admitted, replayed, adopt, admit_message, answer_fresh, settle, respond, serve,
}

-- A request changes nothing of the session but the flag that retires it.
abbrev pub SameEpochs : Session → Session → Type 0
SameEpochs s t =
    (t.binding ≡ s.binding) × (t.epoch_disk ≡ s.epoch_disk) × (t.epoch_net ≡ s.epoch_net)

pub dispatch-SameEpochs :
    (x : Outside) (operation : ℕ) (m : List ℕ) (session : Session) (s : State)
    → SameEpochs session (dispatch x operation m session s).1
unfolding dispatch retire
dispatch-SameEpochs x operation m session s = ground arith

pub set_epoch_binding : (s : Session) (device e : ℕ) → (set_epoch s device e).binding ≡ s.binding
set_epoch_binding s device e = ground arith

-- Bindings come first, and transactions within a binding.
abbrev pub Precedes : Server → Server → Type 0
Precedes v w =
    (v.session.binding < w.session.binding)
    ⊎ ((v.session.binding ≡ w.session.binding) × (v.last_transaction < w.last_transaction))

abbrev pub Stands : Server → Server → Type 0
Stands v w =
    (w.state ≡ v.state)
    × (w.session.binding ≡ v.session.binding)
    × (w.last_transaction ≡ v.last_transaction)

answer_fresh_order :
    (x : Outside) (admitted : Bool) (m : List ℕ) (v : Server)
    → let w = (answer_fresh x admitted m v).1 in
      (w ≡ v)
      ⊎ ((w.session.binding ≡ v.session.binding) × (v.last_transaction < w.last_transaction))
unfolding answer_fresh
answer_fresh_order x admitted m v =
    let h = header_of m in
    let kept = (dispatch-SameEpochs x h.operation m v.session v.state).0 in
    elim (Bool-cases (admitted && ltb v.last_transaction h.transaction)) [
      | inl new ↦ inr (rw new (set_epoch_binding _ _ _ ∙ kept, ground arith))
      | inr old ↦ inl (rw old refl)
    ]

adopt_order :
    (v : Server) (a : Admission) (t : Session) (binding epoch : ℕ) (hello idle : Bool) (device : ℕ)
    → Admits v.session binding epoch hello idle device a t
    → Stands v (adopt v (a, t)) ⊎ (v.session.binding < (adopt v (a, t)).session.binding)
adopt_order v refused t binding epoch hello idle device (e, _) =
    inl (refl, ap (λ s. s.binding) e, refl)
adopt_order v same t binding epoch hello idle device (e, _, _, _) =
    inl (refl, ap (λ s. s.binding) e, refl)
adopt_order v rebound t binding epoch hello idle device (_, less, _, _, e, _, _, _) =
    inr (omega (arith, less, e))

after_adopt :
    (v u w : Server)
    → Stands v u ⊎ (v.session.binding < u.session.binding)
    → (w ≡ u)
      ⊎ ((w.session.binding ≡ u.session.binding) × (u.last_transaction < w.last_transaction))
    → Stands v w ⊎ Precedes v w
after_adopt v u w (inl stands) (inl e) = inl (subst (Stands v) (sym e) stands)
after_adopt v u w (inl (_, b, l)) (inr (c, m)) =
    inr (inr (omega (arith, b, c), omega (arith, l, m)))
after_adopt v u w (inr less) (inl e) =
    inr (inl (subst (λ w. v.session.binding < w.session.binding) (sym e) less))
after_adopt v u w (inr less) (inr (c, m)) = inr (inl (omega (arith, less, c)))

-- One message leaves the state, the binding and the last transaction, or goes on to a higher
-- binding or to a higher transaction of the same binding; so no pair of binding and transaction
-- changes the state twice.
pub respond_order :
    (x : Outside) (v : Server) (m : List ℕ) → let w = (respond x v m).1 in Stands v w ⊎ Precedes v w
unfolding respond settle admit_message
respond_order x v m =
    let (a, t) = admit_message v m in
    let adopted = adopt_order v a t _ _ _ _ _ (admit-Admits v.session _ _ _ _ _) in
    let answered = answer_fresh_order x (is_admitted a) m (adopt v (a, t)) in
    let w = adopt v (a, t) in
    elim (Option-cases (if is_admitted a then replayed w (header_of m).transaction m else none)) [
      | inl new ↦ rw new (after_adopt v w _ adopted answered)
      | inr (reply, old) ↦ rw old (after_adopt v w w adopted (inl refl))
    ]

-- No run goes back to a lower binding, or to a lower transaction of its binding.
abbrev pub NotBefore : Server → Server → Type 0
NotBefore v w =
    Precedes v w
    ⊎ ((w.session.binding ≡ v.session.binding) × (w.last_transaction ≡ v.last_transaction))

NotBefore-step : (v u w : Server) → NotBefore v u → Stands u w ⊎ Precedes u w → NotBefore v w
NotBefore-step v u w h k = ground arith

-- No run goes back to a lower binding, or to a lower transaction of its binding.
pub serve_order : (rs : List Round) (v : Server) → NotBefore v (serve rs v).1
serve_order rs v =
    serve_induct (λ w. NotBefore v w)
      (λ x u m h. NotBefore-step v u (respond x u m).1 h (respond_order x u m)) rs v
      (inr (refl, refl))
