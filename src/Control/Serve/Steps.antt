-- ===== src/Control/Serve/Steps.antt =====
-- What a round, and a run of rounds, can leave.
use hype_r_io_vm.Base.{ℕ, ◌≡◌, ◌⊎◌, inl, inr, refl, sym, subst, List, [], ◌∷◌, length, Bool-cases}
use hype_r_io_vm.Wire.{header_of}
use hype_r_io_vm.Control.Dispatch.{Outside}
use hype_r_io_vm.Control.Serve.{
  Server, Round, Next, continue, finished, failed, Outcome, done, ended, broken, well_formed,
  respond, round, go_on, serve,
}

round_parts :
    (x : Outside) (received : Outcome) (m : List ℕ) (sent : Outcome) (v : Server)
    → let v' =
        (round (record { outside = x; received = received; message = m; sent = sent }) v).1 in
      (v' ≡ v) ⊎ (v' ≡ (respond x v m).1)
unfolding round
round_parts x done m sent v = elim (Bool-cases (well_formed (header_of m) (length m))) [
  | inl fine ↦ inr (rw fine refl)
  | inr bad ↦ inl (rw bad refl)
]
round_parts x ended m sent v = inl refl
round_parts x broken m sent v = inl refl

-- A round leaves the server as it was, or answers its message.
pub round_cases :
    (r : Round) (v : Server)
    → ((round r v).1 ≡ v) ⊎ ((round r v).1 ≡ (respond r.outside v r.message).1)
round_cases r v = round_parts r.outside r.received r.message r.sent v

next_cases {ℓ} :
    (P : Server → Type ℓ) (next : Next) (v : Server) (rest : Next × Server)
    → P v
    → P rest.1
    → P (go_on next v rest).1
next_cases P continue v rest p q = q
next_cases P finished v rest p q = p
next_cases P failed v rest p q = p

-- A property of servers that every answer keeps holds to the end of a run.
pub serve_induct {ℓ} :
    (P : Server → Type ℓ)
    → ((x : Outside) (v : Server) (m : List ℕ) → P v → P (respond x v m).1)
    → (rs : List Round) (v : Server) → P v
    → P (serve rs v).1
unfolding serve
serve_induct P keep [] v p = p
serve_induct P keep (r ∷ rs) v p =
    let one : P (round r v).1 = elim (round_cases r v) [
      | inl same ↦ subst P (sym same) p
      | inr answered ↦ subst P (sym answered) (keep r.outside v r.message p)
    ] in
    next_cases P (round r v).0 (round r v).1 (serve rs (round r v).1) one
      (serve_induct P keep rs (round r v).1 one)
