-- ===== src/Channel/Chain.antt =====
-- The chain that the entries of a channel are.
use heterogeneous_network.Base.{
  ℕ, zero, suc, ◌+◌, ◌<◌, ◌≤◌, ◌≡◌, refl, ap, ◌∙◌, List, [], ◌∷◌, ◌++◌, none, some, arith, Bool,
  true, false, length, get_elem?, set, drop, length-drop,
}
use heterogeneous_network.Channel.{Cell, pending, value, finished, try_next_entry, update_head}

module _ {A : Type 0} where
  -- The entries from index `i` on: the values sent, each with the index of the next entry, and the
  -- last entry.
  pub cells : ℕ → List A → Cell A → List (Cell A)
  cells i [] last = last ∷ []
  cells i (v ∷ vs) last = value v (suc i) ∷ cells (suc i) vs last

  pub cells-length :
      (i : ℕ) (vs : List A) (last : Cell A) → length (cells i vs last) ≡ suc (length vs)
  unfolding cells
  cells-length i [] last = refl
  cells-length i (v ∷ vs) last = ap suc (cells-length (suc i) vs last)

  pub cells-last :
      (i : ℕ) (vs : List A) (last : Cell A) → get_elem? (cells i vs last) (length vs) ≡ some last
  unfolding cells
  cells-last i [] last = refl
  cells-last i (v ∷ vs) last = cells-last (suc i) vs last

  -- An entry before the last one holds the next value, and the next index.
  pub cells-value :
      (i : ℕ) (vs : List A) (last : Cell A) (j : ℕ) (v : A) (rest : List A)
      → drop j vs ≡ v ∷ rest
      → get_elem? (cells i vs last) j ≡ some (value v (suc (j + i)))
  unfolding cells
  cells-value i [] last zero v rest e = cc
  cells-value i [] last (suc j) v rest e = cc
  cells-value i (x ∷ vs) last zero v rest e =
      let p : x ≡ v = cc in rw p (ap (λ n. some (value v (suc n))) (omega arith))
  cells-value i (x ∷ vs) last (suc j) v rest e =
      cells-value (suc i) vs last j v rest e ∙ ap (λ n. some (value v (suc n))) (omega arith)

  pub cells-set :
      (i : ℕ) (vs : List A) (last new : Cell A)
      → set (cells i vs last) (length vs) new ≡ cells i vs new
  unfolding cells
  cells-set i [] last new = refl
  cells-set i (x ∷ vs) last new = ap (λ cs. value x (suc i) ∷ cs) (cells-set (suc i) vs last new)

  pub cells-append :
      (i : ℕ) (vs : List A) (v : A) (last : Cell A)
      → cells i vs (value v (suc (length vs + i))) ++ (last ∷ []) ≡ cells i (vs ++ (v ∷ [])) last
  unfolding cells
  cells-append i [] v last = ap (λ n. value v (suc n) ∷ last ∷ []) (omega arith)
  cells-append i (x ∷ vs) v last =
      ap (λ cs. value x (suc i) ∷ cs)
        (ap (λ n. cells (suc i) vs (value v (suc n)) ++ (last ∷ [])) (omega arith)
          ∙ cells-append (suc i) vs v last)

  -- The last entry, of a channel that the sender has ended or not.
  abbrev pub last_cell : Bool → Cell A
  last_cell true = finished
  last_cell false = pending

  pub chain : List A → Bool → List (Cell A)
  chain vs ended = cells 0 vs (last_cell ended)

  pub chain-nil : chain [] false ≡ pending ∷ []
  unfolding chain cells
  chain-nil = refl

  pub chain-length : (vs : List A) (ended : Bool) → length (chain vs ended) ≡ suc (length vs)
  unfolding chain
  chain-length vs ended = cells-length 0 vs (last_cell ended)

  pub chain-last :
      (vs : List A) (ended : Bool) → get_elem? (chain vs ended) (length vs) ≡ some (last_cell ended)
  unfolding chain
  chain-last vs ended = cells-last 0 vs (last_cell ended)

  pub chain-value :
      (vs : List A) (ended : Bool) (j : ℕ) (v : A) (rest : List A)
      → drop j vs ≡ v ∷ rest
      → get_elem? (chain vs ended) j ≡ some (value v (suc j))
  unfolding chain
  chain-value vs ended j v rest e =
      cells-value 0 vs (last_cell ended) j v rest e ∙ ap (λ n. some (value v (suc n))) (omega arith)

  -- What `resolve` makes of the chain.
  pub chain-append :
      (vs : List A) (v : A)
      → set (chain vs false) (length vs) (value v (suc (length vs))) ++ (pending ∷ [])
        ≡ chain (vs ++ (v ∷ [])) false
  unfolding chain
  chain-append vs v =
      ap (λ cs. cs ++ (pending ∷ []))
        (cells-set 0 vs pending (value v (suc (length vs)))
          ∙ ap (λ n. cells 0 vs (value v (suc n))) (omega arith))
      ∙ cells-append 0 vs v pending

  -- What `resolveDone` makes of it.
  pub chain-finish : (vs : List A) → set (chain vs false) (length vs) finished ≡ chain vs true
  unfolding chain
  chain-finish vs = cells-set 0 vs pending finished

  pub drop-suc :
      (j : ℕ) (vs : List A) (v : A) (rest : List A) → drop j vs ≡ v ∷ rest → drop (suc j) vs ≡ rest
  drop-suc zero [] v rest e = cc
  drop-suc zero (x ∷ vs) v rest e = cc
  drop-suc (suc j) [] v rest e = cc
  drop-suc (suc j) (x ∷ vs) v rest e = drop-suc j vs v rest e

  pub drop_all : (j : ℕ) (vs : List A) → j ≤ length vs → drop j vs ≡ [] → j ≡ length vs
  drop_all j vs h e = omega (arith, h, length-drop j vs, ap (λ (l : List A). length l) e)

  pub drop_some :
      (j : ℕ) (vs : List A) (v : A) (rest : List A) → drop j vs ≡ v ∷ rest → suc j ≤ length vs
  drop_some j vs v rest e = omega (arith, length-drop j vs, ap (λ (l : List A). length l) e)

  no_next : (vs : List A) (ended : Bool) → try_next_entry (chain vs ended) (length vs) ≡ none
  unfolding try_next_entry
  no_next vs true = rw (chain-last vs true) refl
  no_next vs false = rw (chain-last vs false) refl

  stays :
      (entries : List (Cell A)) (j fuel : ℕ)
      → try_next_entry entries j ≡ none
      → update_head (suc fuel) entries j ≡ some j
  unfolding update_head
  stays entries j fuel e = rw (update_head, e) refl

  -- From any entry, the loop of `#updateHead` ends at the last one: as many rounds as there are
  -- values behind the entry, and one, are enough.
  pub update_head-chain :
      (vs : List A) (ended : Bool) (rest : List A) (fuel j : ℕ)
      → drop j vs ≡ rest
      → j ≤ length vs
      → length rest < fuel
      → update_head fuel (chain vs ended) j ≡ some (length vs)
  unfolding update_head try_next_entry
  update_head-chain vs ended rest zero j e h f = absurd (omega (arith, f))
  update_head-chain vs ended [] (suc fuel) j e h f =
      rw (drop_all j vs h e) (stays (chain vs ended) (length vs) fuel (no_next vs ended))
  update_head-chain vs ended (v ∷ rest) (suc fuel) j e h f =
      rw (update_head, try_next_entry, chain-value vs ended j v rest e)
        (update_head-chain vs ended rest fuel (suc j) (drop-suc j vs v rest e)
          (drop_some j vs v rest e) (omega (arith, f)))
