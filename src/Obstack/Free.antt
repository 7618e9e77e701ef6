-- ===== src/Obstack/Free.antt =====
-- What freeing an object makes of the others.
use yalibct.Base.{
  ℕ, ◌≤◌, ◌<◌, ◌≡◌, refl, ap, ◌∙◌, subst, ◌⊎◌, inl, inr, Bool, true, false, ◌&&◌, ◌||◌, List, [],
  ◌∷◌, Option, some, ltb, leb, arith, Bool-cases,
}
use yalibct.Obstack.{
  Run, ok, World, Chunk, Obstack, chunk_base, free_chunks, stop_at, obstack_free, obstack_free_,
}
use yalibct.Obstack.Align.{IsAligned}
use yalibct.Obstack.Memory.{Holds}
use yalibct.Obstack.Layout.{Object, IsApart, IsChain, Layout, object, first, none_older, AllHold}
use yalibct.Obstack.NewChunk.{IsValid}

-- An object with those that are older.
pub data IsAt (o : Object) : List Object → List Object → Type 0 where
  here : {os : List Object} → IsAt o (o ∷ os) os
  there : {x : Object} {os older : List Object} → IsAt o os older → IsAt o (x ∷ os) older

older_hold :
    (m : ℕ → ℕ) (o : Object) (os older : List Object)
    → IsAt o os older
    → AllHold m os
    → AllHold m older
unfolding AllHold
older_hold m o (_ ∷ os) older here h = h.1
older_hold m o (x ∷ os) older (there i) h = older_hold m o os older i h.1
older_hold m o [] older i h = elim i [ ]

-- An object is not where the region is that is apart from the chunks.
object-IsApart :
    (a lo hi : ℕ) (c : Chunk) (cs : List Chunk) (u : ℕ) (e : Bool) (o : Object)
    (os older : List Object)
    → Layout a (c ∷ cs) u e os
    → u ≤ c.limit
    → IsChain a (c ∷ cs)
    → IsApart lo hi (c ∷ cs)
    → IsAt o os older
    → (hi < o.at) ⊎ (o.at ≤ lo)
unfolding IsChain IsApart
object-IsApart a lo hi c cs u e o os older (object x low high full aligned l) under chain apart
      here =
    elim apart.0 [
      | inl over ↦ inl (omega (arith, over, chain.0, low))
      | inr below ↦ inr (omega (arith, below, high, under))
    ]
object-IsApart a lo hi c cs u e o os older (object x low high full aligned l) under chain apart
      (there i) =
    object-IsApart a lo hi c cs x.at e o _ older l (omega (arith, high, under)) chain apart i
object-IsApart a lo hi c cs u e o os older (first {c' = c'} l) under chain apart i =
    object-IsApart a lo hi c' _ c'.limit true o os older l (omega arith) chain.4 apart.1 i
object-IsApart a lo hi c cs u e o [] older none_older under chain apart i = elim i [ ]

-- The chunk in which the loop stops, and what is in it below the object.
pub record Stops (a p : ℕ) (older : List Object) (r : Option (Chunk × List Chunk) × Bool)
    : Type 0 where
  pub chunk : Chunk
  pub prev : List Chunk
  pub maybe_empty : Bool
  pub found : r ≡ (some (chunk, prev), maybe_empty)
  pub chain : IsChain a (chunk ∷ prev)
  pub low : chunk_base a chunk.address ≤ p
  pub high : p ≤ chunk.limit
  pub aligned : IsAligned a p ⊎ (p ≡ chunk.limit)
  pub layout : Layout a (chunk ∷ prev) p maybe_empty older

stays_here :
    (c : Chunk) (p : ℕ) → c.address < p → p ≤ c.limit → (leb p c.address || ltb c.limit p) ≡ false
stays_here c p above below = ground (arith, above, below)

free_chunks-Stops :
    (a : ℕ) (c : Chunk) (cs : List Chunk) (u : ℕ) (e : Bool) (o : Object) (os older : List Object)
    → Layout a (c ∷ cs) u e os
    → u ≤ c.limit
    → IsChain a (c ∷ cs)
    → IsAt o os older
    → Stops a o.at older (free_chunks (c ∷ cs) o.at e)
unfolding IsChain free_chunks
free_chunks-Stops a c cs u e o os older (object x low high full aligned l) under chain here =
    record {
      chunk = c;
      prev = cs;
      maybe_empty = e;
      found =
          rw
            (
              free_chunks,
              stays_here c o.at (omega (arith, chain.0, low)) (omega (arith, high, under)),
            )
            refl;
      chain = chain;
      low = low;
      high = omega (arith, high, under);
      aligned = aligned;
      layout = l;
    }
free_chunks-Stops a c cs u e o os older (object x low high full aligned l) under chain (there i) =
    free_chunks-Stops a c cs x.at e o _ older l (omega (arith, high, under)) chain i
free_chunks-Stops a c cs u e o [] older none_older under chain i = elim i [ ]
free_chunks-Stops a c cs u e o os older (first {c' = c'} {cs = cs'} l) under chain i =
    let rest = free_chunks-Stops a c' cs' c'.limit true o os older l (omega arith) chain.4 i in
    record {
      chunk = rest.chunk;
      prev = rest.prev;
      maybe_empty = rest.maybe_empty;
      found = rw (free_chunks, moves_on) rest.found;
      chain = rest.chain;
      low = rest.low;
      high = rest.high;
      aligned = rest.aligned;
      layout = rest.layout;
    }
  where
    moves_on : (leb o.at c.address || ltb c.limit o.at) ≡ true
    moves_on =
        elim (object-IsApart a c.address c.limit c' cs' c'.limit true o os older l (omega arith)
          chain.4 chain.3 i) [
            | inl above ↦ ground (arith, above)
            | inr below ↦ ground (arith, below)
          ]

-- The obstack after an object is freed.
unfoldable pub Frees : World → List Object → Run (Option Obstack) → Type 0
Frees w older r = (h' : Obstack) × (r ≡ ok (some h')) × IsValid w h' older []

module _ (w : World) (h : Obstack) (os : List Object) (growing : List (Option ℕ))
    (v : IsValid w h os growing) (o : Object) (older : List Object) (i : IsAt o os older) where
  stop_at-Frees :
      Frees w older (stop_at h o.at (free_chunks (h.chunk ∷ h.prev) o.at h.maybe_empty_object))
  unfolding Frees stop_at Holds
  stop_at-Frees =
      let s =
        free_chunks-Stops h.alignment_mask h.chunk h.prev h.object_base h.maybe_empty_object o os
          older v.layout (omega (arith, v.next, v.high)) v.chain i in
      (
        record h {
          chunk = s.chunk;
          prev = s.prev;
          object_base = o.at;
          next_free = o.at;
          chunk_limit = s.chunk.limit;
          maybe_empty_object = s.maybe_empty;
        },
        ap (stop_at h o.at) s.found,
        record {
          mask = v.mask;
          limit = refl;
          chain = s.chain;
          low = s.low;
          next = omega arith;
          high = s.high;
          aligned = s.aligned;
          layout = s.layout;
          objects = older_hold w.memory o os older i v.objects;
          grown = tt;
        },
      )

  pub free-IsValid : Frees w older (obstack_free h o.at)
  unfolding obstack_free obstack_free_ Frees stop_at free_chunks
  free-IsValid = elim (Bool-cases (ltb h.chunk.address o.at && ltb o.at h.chunk_limit)) [
    | inr slow ↦ rw (obstack_free, slow) stop_at-Frees
    | inl fast ↦
        let (h', frees, v') =
          subst (λ r. Frees w older (stop_at h o.at r)) (at_once fast) stop_at-Frees in
        (
          h',
          rw (obstack_free, fast)
              (ap
                  (λ l.
                    ok (some (record h { object_base = o.at; next_free = o.at; chunk_limit = l })))
                  v.limit
                ∙ frees),
          v',
        )
  ]
    where
      above : (ltb h.chunk.address o.at && ltb o.at h.chunk_limit) ≡ true → h.chunk.address < o.at
      above fast = ground (arith, fast)

      below : (ltb h.chunk.address o.at && ltb o.at h.chunk_limit) ≡ true → o.at ≤ h.chunk.limit
      below fast = ground (arith, fast, v.limit)

      at_once :
          (ltb h.chunk.address o.at && ltb o.at h.chunk_limit) ≡ true
          → free_chunks (h.chunk ∷ h.prev) o.at h.maybe_empty_object
            ≡ (some (h.chunk, h.prev), h.maybe_empty_object)
      at_once fast = rw (free_chunks, stays_here h.chunk o.at (above fast) (below fast)) refl
