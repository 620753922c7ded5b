-- ===== src/Database/Values/Filling.antt =====
-- Where the consensus of a listing comes from, in a server without a store.
use mathlib.Core.Path.{subst}
use sightingdb.Attribute.{Attribute, AttributeView, is_expired, view}
use sightingdb.Chrono.{Chrono, DateTime}
use sightingdb.Common.{
  Bool-cases, List, Memᴰ, Option, Option-cases, [], ap, false, inl, inr, map, none, refl, some, sym,
  ℕ, ◌↔◌, ◌∙◌, ◌∷◌, ◌≡◌,
}
use sightingdb.Database.{Database, ShardData}
use sightingdb.Database.Lookup.{Agrees, Agrees-get_namespace}
use sightingdb.Database.Paging.{get_namespace}
use sightingdb.Database.Values.{fill_consensus, namespace_views}
use sightingdb.Database.Writing.{count_in}
use sightingdb.Dns.Answer.{answer}
use sightingdb.Map.{Map, lookup}
use sightingdb.Names.{all_namespace}
use sightingdb.Namespace.{Namespace, all_views, count_value, live}
use sightingdb.Order.{Text, text_ord}

pub Agrees-trans : {a b d : Database} → Agrees a b → Agrees b d → Agrees a d
Agrees-trans h k = record {
  namespaces = k.namespaces ∙ h.namespaces;
  has_store = k.has_store;
  policy = k.policy ∙ h.policy;
  node = k.node ∙ h.node;
}

-- what stands in for `f` where there is no such namespace
abbrev pub from_namespace : {A : Type 0} → A → (Namespace → A) → Option Namespace → A
from_namespace missing f none = missing
from_namespace missing f (some ns) = f ns

module _ ⦃c : Chrono⦄ (read_shard : Text → Option ShardData) (now : DateTime) where
  -- the tally that `_all` holds for a value
  abbrev pub consensus_in : Map Text Namespace → Text → ℕ
  consensus_in m value = from_namespace 0 (count_value value now) (lookup all_namespace m)

  pub count_in_lem :
      (value : Text) (db : Database)
      → db.has_store ≡ false
      → Agrees db (count_in read_shard all_namespace value now db).0
        × ((count_in read_shard all_namespace value now db).1 ≡ consensus_in db.namespaces value)
  unfolding count_in
  count_in_lem value db closed =
      let (a, e) = Agrees-get_namespace read_shard all_namespace now db closed in
      (a, ap (from_namespace 0 (count_value value now)) e)

  -- the views with the consensus that `_all` holds for their values
  abbrev pub with_consensus : Map Text Namespace → List AttributeView → List AttributeView
  with_consensus m views =
      map (λ (v : AttributeView). record v { consensus = consensus_in m v.value }) views

  fill_consensus_lem :
      (views : List AttributeView) (db : Database)
      → db.has_store ≡ false
      → Agrees db (fill_consensus read_shard now views db).0
        × ((fill_consensus read_shard now views db).1 ≡ with_consensus db.namespaces views)
  unfolding fill_consensus
  fill_consensus_lem [] db closed =
      (record { namespaces = refl; has_store = closed; policy = refl; node = refl }, refl)
  fill_consensus_lem (v ∷ rest) db closed =
      let (a, e) = count_in_lem v.value db closed in
      let (b, f) =
        fill_consensus_lem rest (count_in read_shard all_namespace v.value now db).0 a.has_store in
      (
        Agrees-trans a b,
        ap
              (λ k.
                record v { consensus = k }
                ∷ (fill_consensus read_shard now rest
                    (count_in read_shard all_namespace v.value now db).0).1)
              e
            ∙ ap (λ t. record v { consensus = consensus_in db.namespaces v.value } ∷ t)
                (f ∙ ap (λ m. with_consensus m rest) a.namespaces),
      )

  namespace_views_eq :
      (namespace : Text) (db : Database)
      → db.has_store ≡ false
      → Agrees db (namespace_views read_shard namespace now db).0
        × ((namespace_views read_shard namespace now db).1
            ≡ from_namespace none
                (λ ns. some (with_consensus db.namespaces (all_views false now ns)))
                (lookup namespace db.namespaces))
  unfolding namespace_views
  namespace_views_eq namespace db closed =
      let (a, e) = Agrees-get_namespace read_shard namespace now db closed in
      elim (Option-cases (lookup namespace db.namespaces)) [
        | inl n ↦
            let q : (get_namespace read_shard namespace now db).1 ≡ none = e ∙ n in
            rw (namespace_views, q, n) (a, refl)
        | inr (ns, n) ↦
            let q : (get_namespace read_shard namespace now db).1 ≡ some ns = e ∙ n in
            let views = all_views false now ns in
            let (b, f) =
              fill_consensus_lem views (get_namespace read_shard namespace now db).0 a.has_store in
            rw (namespace_views, q, n)
              (
                Agrees-trans a b,
                ap (λ t. some t) (f ∙ ap (λ m. with_consensus m views) a.namespaces),
              )
      ]

  -- The view is of an attribute of the namespace that has not expired, with the consensus that `_all`
  -- holds for its value.
  abbrev pub IsViewIn : Map Text Namespace → Map Text Attribute → AttributeView → Type 0
  IsViewIn m cells v =
      (value : Text) × (a : Attribute) × Memᴰ (value, a) cells
      × (is_expired now a ≡ false)
      × (v ≡ view (consensus_in m a.value) false a)

  abbrev listing : Map Text Namespace → Map Text Attribute → List AttributeView
  listing m cells =
      with_consensus m (map (λ (e : Text × Attribute). view 0 false e.1) (live now cells))

  IsViewIn-listing :
      (m : Map Text Namespace) (cells : Map Text Attribute) (v : AttributeView)
      → Memᴰ v (listing m cells)
      → IsViewIn m cells v
  unfolding live view
  IsViewIn-listing m [] v h = elim h [ ]
  IsViewIn-listing m ((value, a) ∷ rest) v h = elim (Bool-cases (is_expired now a)) [
    | inl e ↦
        let (w, b, found, k, same) = IsViewIn-listing m rest v (rw e at h) in
        (w, b, Memᴰ.tail found, k, same)
    | inr e ↦ from_front e (IsViewIn-listing m rest v) (rw e at h)
  ]
    where
      from_front :
          is_expired now a ≡ false
          → (Memᴰ v (listing m rest) → IsViewIn m rest v)
          → Memᴰ v (view (consensus_in m a.value) false a ∷ listing m rest)
          → IsViewIn m ((value, a) ∷ rest) v
      from_front e later (Memᴰ.head same) = (value, a, Memᴰ.head refl, e, same)
      from_front e later (Memᴰ.tail found) =
          let (w, b, place, k, same) = later found in (w, b, Memᴰ.tail place, k, same)

  listing-IsViewIn :
      (m : Map Text Namespace) (value : Text) (a : Attribute) (cells : Map Text Attribute)
      → Memᴰ (value, a) cells
      → is_expired now a ≡ false
      → Memᴰ (view (consensus_in m a.value) false a) (listing m cells)
  unfolding live view
  listing-IsViewIn m value a [] found k = elim found [ ]
  listing-IsViewIn m value a ((w, b) ∷ rest) (Memᴰ.head e) k =
      let same : a ≡ b = ap (λ (x : Text × Attribute). x.1) e in
      let kept : is_expired now b ≡ false = ap (is_expired now) (sym same) ∙ k in
      rw kept (Memᴰ.head (ap (λ x. view (consensus_in m x.value) false x) same))
  listing-IsViewIn m value a ((w, b) ∷ rest) (Memᴰ.tail found) k =
      let later = listing-IsViewIn m value a rest found k in
      elim (Bool-cases (is_expired now b)) [ inl e ↦ rw e later | inr e ↦ rw e (Memᴰ.tail later) ]

  -- what a listing of this namespace, or of none, answers
  abbrev pub IsListing :
      Map Text Namespace → Option Namespace → Option (List AttributeView) → Type 0
  IsListing m none answer = answer ≡ none
  IsListing m (some ns) answer =
      (views : List AttributeView) × (answer ≡ some views)
      × ((v : AttributeView) → Memᴰ v views ↔ IsViewIn m ns.cells v)

  IsListing-all_views :
      (m : Map Text Namespace) (found : Option Namespace)
      → IsListing m found
          (from_namespace none (λ ns. some (with_consensus m (all_views false now ns))) found)
  unfolding all_views
  IsListing-all_views m none = refl
  IsListing-all_views m (some ns) = (
    listing m ns.cells,
    refl,
    λ v. (
      IsViewIn-listing m ns.cells v,
      λ (value, a, found, k, same).
          subst (λ w. Memᴰ w (listing m ns.cells)) (sym same)
            (listing-IsViewIn m value a ns.cells found k),
    ),
  )

  -- In a server without a store, exactly the attributes of the namespace that have not expired are
  -- listed, in some order, each with the consensus that `_all` holds for its value, or nothing where
  -- there is no such namespace, and listing changes no namespace.
  pub namespace_views_lem :
      (namespace : Text) (db : Database)
      → db.has_store ≡ false
      → Agrees db (namespace_views read_shard namespace now db).0
        × IsListing db.namespaces
            (lookup namespace db.namespaces)
            (namespace_views read_shard namespace now db).1
  namespace_views_lem namespace db closed =
      let (a, e) = namespace_views_eq namespace db closed in
      (
        a,
        subst (λ answer. IsListing db.namespaces (lookup namespace db.namespaces) answer) (sym e)
            (IsListing-all_views db.namespaces (lookup namespace db.namespaces)),
      )
