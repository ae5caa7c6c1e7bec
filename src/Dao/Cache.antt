-- ===== src/Dao/Cache.antt =====
-- internal/dao/cache.go and internal/cache/action.go: what is stored and deleted for a row.
use artalk.Prelude.{
  ℕ, ◌==◌, Bool, Option, none, some, List, [], ◌∷◌, ◌++◌, any, if◌then◌else◌, String, concat,
}
use artalk.Entity.{User, Comment, Page, Site}
use artalk.Backend.{CacheStore, Key, Value}

-- slices.Contains
unfoldable pub contains : List ℕ → ℕ → Bool
unfolding any
contains l n = any (λ m. m == n) l

-- The list with an id at its end, unless it has it.
unfoldable pub append_new : List ℕ → ℕ → List ℕ
unfolding contains
append_new l n = if contains l n then l else l ++ n ∷ []

-- What a failed `FindCache` leaves of an empty slice.
abbrev pub or_no_ids : Option (List ℕ) → List ℕ
or_no_ids none = []
or_no_ids (some l) = l

-- `FindCache` into a slice of ids; a value of another type is an error of the unmarshaler.
abbrev pub decode_ids : Option Value → Option (List ℕ)
decode_ids (some (Value.ids l)) = some l
decode_ids _ = none

abbrev pub decode_comment : Option Value → Option Comment
decode_comment (some (Value.comment c)) = some c
decode_comment _ = none

abbrev pub decode_user : Option Value → Option User
decode_user (some (Value.user u)) = some u
decode_user _ = none

abbrev pub decode_page : Option Value → Option Page
decode_page (some (Value.page p)) = some p
decode_page _ = none

abbrev pub decode_site : Option Value → Option Site
decode_site (some (Value.site s)) = some s
decode_site _ = none

-- The names that join two texts: "user#name=%s;email=%s" and "page#key=%s;site_name=%s".
abbrev pub user_by_name_email_key : String → String → Key
user_by_name_email_key name email = Key.user_by_name_email (concat name (concat ";email=" email))

abbrev pub page_by_key_site_name_key : String → String → Key
page_by_key_site_name_key key site_name =
    Key.page_by_key_site_name (concat key (concat ";site_name=" site_name))

module _ (S : CacheStore) where
  open S use {Store, get, set, del}

  unfoldable pub store_cache : Value → List Key → Store → Store
  store_cache v [] s = s
  store_cache v (k ∷ ks) s = store_cache v ks (set k v s)

  unfoldable pub del_cache : List Key → Store → Store
  del_cache [] s = s
  del_cache (k ∷ ks) s = del_cache ks (del k s)

  -- A root comment gets an empty list unless it has one; any other is put on its parent's list.
  unfoldable pub child_comment_cache_save : Comment → Store → Store
  unfolding store_cache append_new
  child_comment_cache_save c s =
      if c.rid == 0
      then (elim (decode_ids (get (Key.comment_child_ids_by_id c.id) s)) [
        | none ↦ store_cache (Value.ids []) (Key.comment_child_ids_by_id c.id ∷ []) s
        | some _ ↦ s
      ])
      else (let cache_name = Key.comment_child_ids_by_id c.rid in
          let child_ids = or_no_ids (decode_ids (get cache_name s)) in
          store_cache (Value.ids (append_new child_ids c.id)) (cache_name ∷ []) s)

  unfoldable pub comment_cache_save : Comment → Store → Store
  unfolding child_comment_cache_save
  comment_cache_save c s =
      child_comment_cache_save c (store_cache (Value.comment c) (Key.comment_by_id c.id ∷ []) s)

  unfoldable pub child_comment_cache_del : Comment → Store → Store
  unfolding del_cache
  child_comment_cache_del c s =
      let s' = del_cache (Key.comment_child_ids_by_id c.id ∷ []) s in
      if c.rid == 0 then s' else del_cache (Key.comment_child_ids_by_id c.rid ∷ []) s'

  unfoldable pub comment_cache_del : Comment → Store → Store
  unfolding child_comment_cache_del
  comment_cache_del c s = child_comment_cache_del c (del_cache (Key.comment_by_id c.id ∷ []) s)

  unfoldable pub page_cache_save : Page → Store → Store
  unfolding store_cache
  page_cache_save p =
      store_cache (Value.page p)
        (Key.page_by_id p.id ∷ page_by_key_site_name_key p.key p.site_name ∷ [])

  unfoldable pub page_cache_del : Page → Store → Store
  unfolding del_cache
  page_cache_del p =
      del_cache (Key.page_by_id p.id ∷ page_by_key_site_name_key p.key p.site_name ∷ [])

  unfoldable pub site_cache_save : Site → Store → Store
  unfolding store_cache
  site_cache_save x =
      store_cache (Value.site x) (Key.site_by_id x.id ∷ Key.site_by_name x.name ∷ [])

  unfoldable pub site_cache_del : Site → Store → Store
  unfolding del_cache
  site_cache_del x s =
      del_cache (Key.site_by_name x.name ∷ []) (del_cache (Key.site_by_id x.id ∷ []) s)

  -- `lower` is strings.ToLower, whose Unicode tables are not modelled.
  module _ (lower : String → String) where
    unfoldable pub user_cache_save : User → Store → Store
    unfolding store_cache
    user_cache_save u =
        store_cache (Value.user u)
          (Key.user_by_id u.id ∷ user_by_name_email_key (lower u.name) (lower u.email) ∷ [])

    unfoldable pub user_cache_del : User → Store → Store
    unfolding del_cache
    user_cache_del u = del_cache (
        Key.user_by_id u.id
        ∷ user_by_name_email_key (lower u.name) (lower u.email)
        ∷ Key.user_id_by_email (lower u.email)
        ∷ [])
