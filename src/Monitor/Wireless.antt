-- ===== src/Monitor/Wireless.antt =====
-- The list of wireless managers: the loop of `DeleteWirelessManager` ends, and it takes the manager
-- off the list that its creation put there.
use ommo_sdk_external.Prelude.{
  ℕ, zero, suc, ◌<◌, ◌≡◌, ◌≢◌, ◌⊎◌, refl, ap, ◌∙◌, arith, false, none, some, List, [], ◌∷◌, ◌++◌,
  length, if◌then◌else◌, ◌==◌, Bool-cases, Option-cases, inl, inr, lookup, change_first,
  lookup-change_first, lookup-change_first_other, length-change_first,
}
use ommo_sdk_external.CallData.{CallData}
use ommo_sdk_external.Types.{WirelessManagementEvent}
use ommo_sdk_external.WirelessManager.{cancel_stream}
use ommo_sdk_external.Monitor.{
  Effect, cancel, Wrapper, Monitored, cancel_manager, delete_loop, delete_wireless_manager,
}
use ommo_sdk_external.Monitor.Runs.{numbers}

-- Without the first occurrence of a number.
abbrev pub without_first : ℕ → List ℕ → List ℕ
without_first number [] = []
without_first number (i ∷ is) =
    let rest = i ∷ without_first number is in if i == number then is else rest

numbers-change_first :
    (number : ℕ) (f : Wrapper → Wrapper) (l : List (ℕ × Wrapper))
    → numbers (change_first number f l) ≡ numbers l
numbers-change_first number f [] = refl
numbers-change_first number f ((i, w) ∷ l) = elim (Bool-cases (i == number)) [
  | inl found ↦ rw found refl
  | inr other ↦ rw other (ap (λ r. i ∷ r) (numbers-change_first number f l))
]

-- What the loop does with the list `l`, on which `w` has the number.
delete_loop_lem :
    (fuel : ℕ) (l : List (ℕ × Wrapper)) (number : ℕ) (w : Wrapper)
    → length l < fuel
    → lookup number l ≡ some w
    → (rest : List (ℕ × Wrapper)) × (delete_loop fuel l number ≡ some (rest, (cancel_manager w).1))
      × (numbers rest ≡ without_first number (numbers l))
      × ((other : ℕ) → other ≢ number → lookup other rest ≡ lookup other l)
unfolding delete_loop
delete_loop_lem zero l number w h here = absurd (omega arith)
delete_loop_lem (suc fuel) [] number w h here = absurd (cc)
delete_loop_lem (suc fuel) ((i, v) ∷ l) number w h here = elim (Bool-cases (i == number)) [
  | inl found ↦
      let value : v ≡ w = cc (rw found at here) in
      (
        l,
        rw found (ap (λ x. some (l, (cancel_manager x).1)) value),
        rw found refl,
        λ k ne. let apart : (i == k) ≡ false = ground arith in rw apart refl,
      )
  | inr other ↦
      let (rest, e, n, kept) = delete_loop_lem fuel l number w (omega arith) (rw other at here) in
      (
        (i, v) ∷ rest,
        rw (other, e) refl,
        rw other (ap (λ r. i ∷ r) n),
        λ k ne. ap (λ r. if i == k then some v else r) (kept k ne),
      )
]

-- CancelStream leaves the pointer to the call, so that a second one finds it.
cancel_manager-twice :
    (w : Wrapper)
    → ((w.wireless_manager.cdata ≡ none)
        × ((cancel_manager w).1 ++ (cancel_manager (cancel_manager w).0).1 ≡ []))
      ⊎ ((call : CallData WirelessManagementEvent) × (w.wireless_manager.cdata ≡ some call)
          × ((cancel_manager w).1 ++ (cancel_manager (cancel_manager w).0).1
              ≡ cancel w.call_number ∷ cancel w.call_number ∷ []))
unfolding cancel_manager cancel_stream
cancel_manager-twice w = elim (Option-cases w.wireless_manager.cdata) [
  | inl gone ↦ inl (gone, rw gone refl)
  | inr (call, held) ↦ inr (call, held, rw held refl)
]

-- DeleteWirelessManager of a manager on the list returns: one round more than there are managers is
-- enough for its loop, wherever in the list the manager stands. It takes that manager off the list
-- and leaves every other as it was. If the manager has a call, exactly this call is cancelled, and
-- twice: by CancelStream, and by the destructor of the manager; if it has none, no call is.
pub delete_wireless_manager-returns :
    (fuel : ℕ) (s : Monitored) (number other : ℕ) (w : Wrapper)
    → length s.wireless_manager_wrapper_list < fuel
    → lookup number s.wireless_manager_wrapper_list ≡ some w
    → other ≢ number
    → (s' : Monitored) × (effects : List Effect) × (delete_wireless_manager fuel s number
        ≡ some (s', effects))
      × (numbers s'.wireless_manager_wrapper_list
          ≡ without_first number (numbers s.wireless_manager_wrapper_list))
      × (lookup other s'.wireless_manager_wrapper_list
          ≡ lookup other s.wireless_manager_wrapper_list)
      × (((w.wireless_manager.cdata ≡ none) × (effects ≡ []))
          ⊎ ((call : CallData WirelessManagementEvent) × (w.wireless_manager.cdata ≡ some call)
              × (effects ≡ cancel w.call_number ∷ cancel w.call_number ∷ [])))
unfolding delete_wireless_manager
delete_wireless_manager-returns fuel s number other w h here ne =
    let l = s.wireless_manager_wrapper_list in
    let f : Wrapper → Wrapper = λ o. (cancel_manager o).0 in
    let (rest, e, n, kept) =
      delete_loop_lem fuel (change_first number f l) number (f w)
        (omega (arith, length-change_first number f l)) (lookup-change_first number f w l here) in
    (
      record s { wireless_manager_wrapper_list = rest },
      (cancel_manager w).1 ++ (cancel_manager (f w)).1,
      rw (delete_wireless_manager, here, e) refl,
      n ∙ ap (without_first number) (numbers-change_first number f l),
      kept other ne ∙ lookup-change_first_other number other f l ne,
      cancel_manager-twice w,
    )
