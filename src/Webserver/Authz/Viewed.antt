-- ===== src/Webserver/Authz/Viewed.antt =====
-- internal/webserver/maps.go: what getViewableMap hands to a handler.
use tileserve_go.Prelude.{
  some_same, Bool, true, false, ◌&&◌, none, some, Text, ◌≡◌, refl, sym, ap, ◌∙◌, subst, arith,
}
use tileserve_go.Prelude.Monad.{Result, ok, err, continue, recover, pure, raise, ◌>>◌}
use tileserve_go.Store.Database.{Database, MapRecord, select_map}
use tileserve_go.Store.State.{Store, StoreError, map_not_found}
use tileserve_go.Store.Maps.{get_map}
use tileserve_go.Store.Reads.{HasTrueCaches, Reads, ok_injective}
use tileserve_go.Store.Reads.Methods.{get_map-Reads, get_map-absent}
use tileserve_go.Webserver.Request.{Request, Refusal, forbidden, not_found, or_refuse}
use tileserve_go.Webserver.Authz.{require_map_view, can_view_map, map_error, get_viewable_map}
use tileserve_go.Webserver.Authz.Sound.{Decides, Decides-allowed, key_may, user_may_view}
use tileserve_go.Webserver.Authz.Decided.{can_view_map-Reads}

-- The rule of canViewMap.
abbrev pub may_view : Request → MapRecord → Database → Bool
may_view r m db = user_may_view m r.username db && key_may r.api_key m.uuid db

-- The outcome of getViewableMap: the map of the table, which may be viewed; or 403 for a map
-- that may not, 404 for one that is not there, or 500.
pub record IsViewOf (r : Request) (id : Text) (s : Store) (x : Result Refusal MapRecord × Store)
    : Type 0 where
  pub db : x.1.db ≡ s.db
  pub coherent : HasTrueCaches x.1
  pub found :
      (m : MapRecord) → x.0 ≡ ok m → (select_map id s.db ≡ some m) × (may_view r m s.db ≡ true)
  pub refused :
      (m : MapRecord)
      → x.0 ≡ err forbidden
      → select_map id s.db ≡ some m
      → may_view r m s.db ≡ false
  pub absent : x.0 ≡ err not_found → select_map id s.db ≡ none

err_again :
    {A B : Type 0} (e f : Refusal)
    → ◌≡◌ {A = Result Refusal A} (err e) (err f)
    → ◌≡◌ {A = Result Refusal B} (err e) (err f)
err_again e f h = ap err (ground (arith, h))

module _ (r : Request) (id : Text) (s : Store) where
  viewed_of :
      (m : MapRecord) (x : Result Refusal (Unit {0}) × Store)
      → select_map id s.db ≡ some m
      → Decides (may_view r m s.db) s x
      → IsViewOf r id s (continue (λ _. pure m) x)
  viewed_of m (ok u, t) h d = record {
    db = d.db;
    coherent = d.coherent;
    found = λ n g.
        subst (λ x. (select_map id s.db ≡ some x) × (may_view r x s.db ≡ true)) (ok_injective m n g)
          (h, d.passed refl);
    refused = λ n g. absurd (ground arith);
    absent = λ g. absurd (ground arith);
  }
  viewed_of m (err e, t) h d = record {
    db = d.db;
    coherent = d.coherent;
    found = λ n g. absurd (ground arith);
    refused = λ n g k.
        subst (λ x. may_view r x s.db ≡ false) (some_same (sym h ∙ k))
          (d.refused (err_again e forbidden g));
    absent = λ g. absurd (d.never_absent (err_again e not_found g));
  }

  view_result :
      (x : Result StoreError MapRecord × Store)
      → Reads (λ m. select_map id s.db ≡ some m) s x
      → (x.0 ≡ err map_not_found → select_map id s.db ≡ none)
      → IsViewOf r id s
          (continue (λ m. require_map_view r m >> pure m) (recover (λ e. raise (map_error e)) x))
  unfolding require_map_view
  view_result (ok m, t) i missing = viewed_of m (require_map_view r m t) (i.right m refl) (
      Decides-allowed (may_view r m s.db) s t (can_view_map r m)
        (can_view_map-Reads r m s t i.db i.coherent))
  view_result (err map_not_found, t) i missing = record {
    db = i.db;
    coherent = i.coherent;
    found = λ m h. absurd (ground arith);
    refused = λ m h. absurd (ground arith);
    absent = λ h. missing refl;
  }
  view_result (err e, t) i missing = record {
    db = i.db;
    coherent = i.coherent;
    found = λ m h. absurd (ground arith);
    refused = λ m h. absurd (ground arith);
    absent = λ h. absurd (ground arith);
  }

  -- With true caches, getViewableMap hands over only the map of the table, and only if the user and
  -- the key, if any, may view it; it answers 403 only for a map that may not be viewed and 404 only
  -- for one that is not in the table; it changes no table and keeps the caches true.
  pub get_viewable_map-IsViewOf : HasTrueCaches s → IsViewOf r id s (get_viewable_map r id s)
  unfolding get_viewable_map or_refuse
  get_viewable_map-IsViewOf c =
      view_result (get_map id s) (get_map-Reads s s refl c id) (get_map-absent id s)
