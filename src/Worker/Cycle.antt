-- ===== src/Worker/Cycle.antt =====
-- The cycle test of `select`: an attribute set that is reached through itself is refused.
use nix_eval_jobs.Prelude.{
  ℕ, ◌≡◌, ◌≢◌, refl, sym, ◌∙◌, ap, subst, List, [], ◌∷◌, ◌++◌, Option, none, some, Bool, true,
  false, ◌&&◌, Bytes, contains, nat_ord, if◌then◌else◌, arith,
}
use mathlib.Core.List.{append_assoc, append-nil}
use nix_eval_jobs.Messages.{ascii}
use nix_eval_jobs.Response.{AttrPath}
use nix_eval_jobs.Worker.{
  World, Step, Exn, value, throws, undefined, eval_error, Kind, Evaluator, Eval, return, throw,
  read, ◌>>=◌, ◌>>◌, continue,
}
use nix_eval_jobs.Worker.Values.{call}
use nix_eval_jobs.Worker.Evaluate.{walk, is_attrs, check_cycle, select}

-- A computation that returned went through each of its parts.
module _ {W E A B : Type 0} where
  continue-value :
      (f : A → Eval W E B) (r : World W × Step E A) (w : World W) (b : B)
      → continue f r ≡ (w, value b)
      → (u : World W) × (a : A) × (r ≡ (u, value a)) × (f a u ≡ (w, value b))
  continue-value f (u, value a) w b h = (u, a, refl, h)
  continue-value f (u, throws e) w b h = cc
  continue-value f (u, undefined) w b h = cc

  bind-value :
      (m : Eval W E A) (f : A → Eval W E B) (u w : World W) (b : B)
      → (m >>= f) u ≡ (w, value b)
      → (t : World W) × (a : A) × (m u ≡ (t, value a)) × (f a t ≡ (w, value b))
  unfolding ◌>>=◌
  bind-value m f u w b h = continue-value f (m u) w b h

  then-value :
      (m : Eval W E A) (k : Eval W E B) (u w : World W) (b : B)
      → (m >> k) u ≡ (w, value b)
      → (t : World W) × (a : A) × (m u ≡ (t, value a)) × (k t ≡ (w, value b))
  unfolding ◌>>◌
  then-value m k u w b h = continue-value (λ _. k) (m u) w b h

  read-value :
      (f : W → A) (g : A → Eval W E B) (u w : World W) (b : B)
      → (read f >>= g) u ≡ (w, value b)
      → g (f u.heap) u ≡ (w, value b)
  unfolding ◌>>=◌ read
  read-value f g u w b h = h

module _ {W E A : Type 0} where
  return-value : {a b : A} {u w : World W} → return {E = E} a u ≡ (w, value b) → (u ≡ w) × (a ≡ b)
  unfolding return
  return-value h = (cc, cc)

  throw-value : (e : Exn E) (b : A) (u w : World W) → throw e u ≢ (w, value b)
  unfolding throw
  throw-value e b u w h = cc

module _ {W E V X D R P J : Type 0} (state : Evaluator W E V X D R P J) where
  -- The way along a path, by what the evaluator does: at each component the value is forced to be
  -- a set, which has the component, and what that holds is called. The addresses are those of the
  -- sets, in the order of the way.
  pub data Passes : World W → V → AttrPath → List ℕ → World W → V → Type 0 where
    arrives : (w : World W) (v : V) → Passes w v [] [] w v
    passes :
        (w t u w' : World W) (v a next r : V) (name : Bytes) (path : AttrPath) (sets : List ℕ)
        → call state (state.force_attrs v (ascii "while selecting an attribute")) w ≡ (t, value tt)
        → state.get t.heap (state.attrs_of t.heap v) name ≡ some a
        → call state (state.auto_call_function a) t ≡ (u, value next)
        → Passes u next path sets w' r
        → Passes w v (name ∷ path) (state.attrs_of t.heap v ∷ sets) w' r

  -- What the loop of `select` returns is the end of such a way, with the sets on it.
  abbrev Walked : AttrPath → List ℕ → V → World W → World W → List ℕ × V → Type 0
  Walked path ancestors v w w' r =
      (sets : List ℕ) × Passes w v path sets w' r.1 × (r.0 ≡ ancestors ++ sets)

  abbrev Walks : AttrPath → Type 0
  Walks path =
      (ancestors : List ℕ) (v : V) (w w' : World W) (r : List ℕ × V)
      → walk state path ancestors v w ≡ (w', value r)
      → Walked path ancestors v w w' r

  found-Walked :
      (path : AttrPath) (name : Bytes) (ancestors : List ℕ) (v : V) (attr : Option V)
      (w u w' : World W) (r : List ℕ × V)
      → Walks path
      → call state (state.force_attrs v (ascii "while selecting an attribute")) w ≡ (u, value tt)
      → state.get u.heap (state.attrs_of u.heap v) name ≡ attr
      → (elim attr as (λ _. Eval W E (List ℕ × V)) [
        | none ↦
            throw
              (eval_error (state.error_info (ascii "attribute '" ++ (name ++ ascii "' missing"))))
        | some a ↦ call state (state.auto_call_function a) >>= λ next.
            walk state path (ancestors ++ state.attrs_of u.heap v ∷ []) next
      ]
          u)
        ≡ (w', value r)
      → Walked (name ∷ path) ancestors v w w' r
  found-Walked path name ancestors v none w u w' r walks forced has h =
      absurd (throw-value _ r u w' h)
  found-Walked path name ancestors v (some a) w u w' r walks forced has h =
      let set = state.attrs_of u.heap v in
      let (t, next, called, g) = bind-value _ _ u w' r h in
      let (sets, way, e) = walks (ancestors ++ set ∷ []) next t w' r g in
      (
        set ∷ sets,
        passes w u t w' v a next r.1 name path sets forced has called way,
        e ∙ append_assoc ancestors (set ∷ []) sets,
      )

  walk-Walks : (path : AttrPath) → Walks path
  unfolding walk
  walk-Walks [] ancestors v w w' r h =
      let (same, e) = return-value h in
      (
        [],
        subst (λ (x : World W × V). Passes w v [] [] x.0 x.1) (λ i. (same i, (e i).1))
            (arrives w v),
        ap (λ r. r.0) (sym e) ∙ sym (append-nil ancestors),
      )
  walk-Walks (name ∷ path) ancestors v w w' r h =
      let (u, _, forced, g) = then-value _ _ w w' r h in
      found-Walked path name ancestors v (state.get u.heap (state.attrs_of u.heap v) name) w u w' r
        (walk-Walks path) forced refl (read-value _ _ u w' r (read-value _ _ u w' r g))

  -- What `select` knows of a value that it returns: the root was called, the way along the path led
  -- from there to the value, and if that is a set then it is none of the sets on the way.
  pub record Acyclic (root : V) (path : AttrPath) (w w' : World W) (v : V) : Type 0 where
    pub sets : List ℕ
    pub first : V
    pub start : World W
    pub arrived : World W
    pub called : call state (state.auto_call_function root) w ≡ (start, value first)
    pub way : Passes start first path sets arrived v
    pub forced : call state (state.force_value v) arrived ≡ (w', value tt)
    pub none_again :
        state.type_of w'.heap v ≡ Kind.attrs → contains (state.attrs_of w'.heap v) sets ≡ false

  unless-value :
      (b : Bool) (e : Exn E) (u v : V) (w w' : World W)
      → ((if b then throw e else return u) w) ≡ (w', value v)
      → (b ≡ false) × (w ≡ w') × (u ≡ v)
  unless-value true e u v w w' h = absurd (throw-value e v w w' h)
  unless-value false e u v w w' h = let (p, q) = return-value h in (refl, p, q)

  record Checked (ancestors : List ℕ) (u v : V) (w w' : World W) : Type 0 where
    same_value : u ≡ v
    forced : call state (state.force_value u) w ≡ (w', value tt)
    once :
        state.type_of w'.heap v ≡ Kind.attrs → contains (state.attrs_of w'.heap v) ancestors ≡ false

  check_cycle-Checked :
      (ancestors : List ℕ) (u v : V) (w w' : World W)
      → check_cycle state ancestors u w ≡ (w', value v)
      → Checked ancestors u v w w'
  unfolding check_cycle
  check_cycle-Checked ancestors u v w w' h =
      let (t, _, forced, g) = then-value _ _ w w' v h in
      let (clear, same, it) =
        unless-value _ _ u v t w' (read-value _ _ t w' v (read-value _ _ t w' v g)) in
      let there : (is_attrs (state.type_of w'.heap v)
            && contains (state.attrs_of w'.heap v) ancestors)
          ≡ false =
        subst
          (λ (x : World W × V).
            (is_attrs (state.type_of x.0.heap x.1)
              && contains (state.attrs_of x.0.heap x.1) ancestors)
            ≡ false)
          (λ i. (same i, it i)) clear in
      record {
        same_value = it;
        forced = forced ∙ ap (λ x. (x, value tt)) same;
        once = λ is_set. let yes' = ap is_attrs is_set in ground arith;
      }

  -- A selection that returns called the root and went from there along the path, each component of
  -- which it found in a set; and if what it returns is a set, then it is none of these sets.
  pub select-Acyclic :
      (root : V) (path : AttrPath) (w w' : World W) (v : V)
      → select state root path w ≡ (w', value v)
      → Acyclic root path w w' v
  unfolding select
  select-Acyclic root path w w' v h =
      let (t, u, called, g) = bind-value _ _ w w' v h in
      let (t', reached, walked, checked) = bind-value _ _ t w' v g in
      let (sets, way, e) = walk-Walks path [] u t t' reached walked in
      let c = check_cycle-Checked reached.0 reached.1 v t' w' checked in
      record {
        sets = sets;
        first = u;
        start = t;
        arrived = t';
        called = called;
        way = subst (Passes t u path sets t') c.same_value way;
        forced =
            subst (λ x. call state (state.force_value x) t' ≡ (w', value tt)) c.same_value c.forced;
        none_again =
            λ is_set. subst (λ l. contains (state.attrs_of w'.heap v) l ≡ false) e (c.once is_set);
      }
