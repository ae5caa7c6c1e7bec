-- ===== src/Server/Notifies/Cleared.antt =====
-- Reading all notifications, and what is unread afterwards.
use artalk.Prelude.{
  ℕ, ◌==◌, Bool, not, ◌&&◌, some, List, [], ◌∷◌, map, filter, str_eq, if◌then◌else◌, ◌≡◌, refl, sym,
  ap, ◌∙◌, arith, Bool-cases, Option-cases, inl, inr, ==_refl,
}
use artalk.Prelude.Result.{Result-cases}
use artalk.Entity.{User, Notify, user_is_empty, empty_user}
use artalk.Backend.{Backend, Key, Value}
use artalk.Dao.{Dao, all_comments, all_notifies, all_users, first_or}
use artalk.Dao.Cache.{decode_user}
use artalk.Dao.Coherence.{SameTables, query_off, query_hit, query_miss}
use artalk.Dao.Find.{find_user_by_id}
use artalk.Server.{Request, success}
use artalk.Server.Auth.{Crypto, get_user_by_req, get_jwt_data_by_req, check_user, guest_token_hash}
use artalk.Server.CommentCreate.Checked.{get_user_by_req-Reads}
use artalk.Server.Notifies.{
  user_or_empty, is_owned, as_read, notification_query, unread_notifications, notify_read_all,
}

-- What is marked as read is not found again.
none_left :
    (mine : Notify → Bool) (now : ℕ) (l : List Notify)
    → filter
        (λ n. mine n && not n.is_read)
        (map (λ n. if mine n && not n.is_read then as_read now n else n) l)
      ≡ []
unfolding filter
none_left mine now [] = refl
none_left mine now (n ∷ l) = elim (Bool-cases (mine n && not n.is_read)) [
  | inl unread ↦ rw unread (ground (arith, none_left mine now l))
  | inr other ↦ rw (other, other) (none_left mine now l)
]

module _ {B : Backend} where
  -- A user who is looked for again is the same, while the table of users and the cache stay.
  find_user_again :
      (id : ℕ) (d e : Dao B)
      → e.cache ≡ (find_user_by_id id d).1.cache
      → e.users ≡ d.users
      → (find_user_by_id id e).0 ≡ (find_user_by_id id d).0
  unfolding find_user_by_id
  find_user_again id d e cached same =
      let key = Key.user_by_id id in
      let query : Dao B → User = λ x. first_or empty_user (λ u. u.id == id) (all_users x) in
      let one : query e ≡ query d =
        ap (λ r. first_or empty_user (λ (u : User). u.id == id) (B.users.select r)) same in
      elim (Option-cases d.cache) [
        | inl off ↦
            let first = query_off key decode_user Value.user query d off in
            let again =
              query_off key decode_user Value.user query e
                (cached ∙ ap (λ (q : User × Dao B). q.1.cache) first ∙ off) in
            ap (λ q. q.0) again ∙ one ∙ sym (ap (λ q. q.0) first)
        | inr (s, on) ↦ elim (Option-cases (decode_user (B.store.get key s))) [
          | inl miss ↦
              let first = query_miss key decode_user Value.user query d s on miss in
              let s' = B.store.set key (Value.user (query d)) s in
              let here : decode_user (B.store.get key s') ≡ some (query d) =
                ground (arith, B.store.get-set key key (Value.user (query d)) s, ==_refl id) in
              let again =
                query_hit key decode_user Value.user query e s' (query d)
                  (cached ∙ ap (λ (q : User × Dao B). q.1.cache) first) here in
              ap (λ q. q.0) again ∙ sym (ap (λ q. q.0) first)
          | inr (u, hit) ↦
              let first = query_hit key decode_user Value.user query d s u on hit in
              let again =
                query_hit key decode_user Value.user query e s u
                  (cached ∙ ap (λ (q : User × Dao B). q.1.cache) first ∙ on) hit in
              ap (λ q. q.0) again ∙ sym (ap (λ q. q.0) first)
        ]
      ]

  module _ (K : Crypto) (r : Request) where
    user_again :
        (d e : Dao B)
        → e.cache ≡ (get_user_by_req K r d).1.cache
        → e.users ≡ d.users
        → (get_user_by_req K r e).0 ≡ (get_user_by_req K r d).0
    unfolding get_user_by_req
    user_again d e cached same = elim (Result-cases (get_jwt_data_by_req K r)) [
      | inr (x, bad) ↦ ground (arith, bad)
      | inl (c, good) ↦
          let step : (get_user_by_req K r d).1.cache ≡ (find_user_by_id c.user_id d).1.cache =
            ground (arith, good) in
          let user = find_user_again c.user_id d e (cached ∙ step) same in
          let at : (x : Dao B)
              → (get_user_by_req K r x).0 ≡ check_user c (find_user_by_id c.user_id x).0 =
            λ x. ground (arith, good) in
          at e ∙ ap (check_user c) user ∙ sym (at d)
    ]

    -- Whose notifications these are does not change either.
    query_again :
        (d e : Dao B)
        → e.cache ≡ (get_user_by_req K r d).1.cache
        → e.users ≡ d.users
        → e.comments ≡ d.comments
        → (notification_query K r e).0 ≡ (notification_query K r d).0
    unfolding notification_query
    query_again d e cached same rows =
        let read₁ = (get_user_by_req-Reads K r d).same in
        let read₂ = (get_user_by_req-Reads K r e).same in
        let comments : all_comments (get_user_by_req K r e).1
            ≡ all_comments (get_user_by_req K r d).1 =
          ap (λ (z : Dao B). all_comments z) read₂
          ∙ ap B.comments.select rows
          ∙ sym (ap (λ (z : Dao B). all_comments z) read₁) in
        ap
          (λ u.
            is_owned (guest_token_hash K r) (user_or_empty u)
              (all_comments (get_user_by_req K r e).1))
          (user_again d e cached same)
        ∙ ap (is_owned (guest_token_hash K r) (user_or_empty (get_user_by_req K r d).0)) comments

    query-SameTables : (d : Dao B) → SameTables d (notification_query K r d).1
    unfolding notification_query
    query-SameTables d = (get_user_by_req-Reads K r d).same

    query-cache : (d : Dao B) → (notification_query K r d).1.cache ≡ (get_user_by_req K r d).1.cache
    unfolding notification_query
    query-cache d = refl

    unread_at :
        (mine : Notify → Bool) (now : ℕ) (l : List Notify) (d : Dao B)
        → (notification_query K r d).0 ≡ mine
        → all_notifies d ≡ map (λ n. if mine n && not n.is_read then as_read now n else n) l
        → (unread_notifications K r d).0 ≡ []
    unfolding unread_notifications
    unread_at mine now l d same rows =
        let pick : (Notify → Bool) → List Notify → List Notify =
          λ m x. filter (λ n. m n && not n.is_read) x in
        ap (λ m. pick m (all_notifies (notification_query K r d).1)) same
        ∙ ap (pick mine) (ap (λ (z : Dao B). all_notifies z) (query-SameTables d) ∙ rows)
        ∙ none_left mine now l

    -- If NotifyReadAll succeeds, the same request has no unread notifications afterwards; the
    -- unread ones that it owned before are marked as read, with the time of the call, and all
    -- other notifications and everything else but the cache are as they were.
    pub notify_read_all-clears :
        (now : ℕ) (d d' : Dao B)
        → notify_read_all K now r d ≡ (success tt, d')
        → let mine = (notification_query K r d).0 in
          ((unread_notifications K r d').0 ≡ [])
          × (all_notifies d'
              ≡ map
                  (λ (n : Notify). if mine n && not n.is_read then as_read now n else n)
                  (all_notifies d))
          × (d' ≡ record d { notifies = d'.notifies; cache = d'.cache })
    unfolding notify_read_all
    notify_read_all-clears now d d' e =
        let (found, d₁) = get_user_by_req K r d in
        let (mine, d₂) = notification_query K r d₁ in
        let refused = user_is_empty (user_or_empty found) && str_eq (guest_token_hash K r) "" in
        let read₁ = (get_user_by_req-Reads K r d).same in
        let pick : Notify → Bool = λ n. mine n && not n.is_read in
        elim (Bool-cases refused) [
          | inl no_ ↦ absurd (ground (arith, e, no_))
          | inr fine ↦ elim (Option-cases (B.notifies.update pick (as_read now) d₂.notifies)) [
            | inl failed ↦ absurd (ground (arith, e, fine, failed))
            | inr (rows, put) ↦
                let end_ : d' ≡ record d₂ { notifies = rows } = ground (arith, e, fine, put) in
                let same₂ = query-SameTables d₁ in
                let mine_last : (notification_query K r d').0 ≡ mine =
                  query_again d₁ d' (ap (λ (z : Dao B). z.cache) end_ ∙ query-cache d₁)
                    (ap (λ (z : Dao B). z.users) end_ ∙ ap (λ (z : Dao B). z.users) same₂)
                    (ap (λ (z : Dao B). z.comments) end_ ∙ ap (λ (z : Dao B). z.comments) same₂) in
                let mine_first : mine ≡ (notification_query K r d).0 =
                  query_again d d₁ refl (ap (λ (z : Dao B). z.users) read₁)
                    (ap (λ (z : Dao B). z.comments) read₁) in
                let before : d₂.notifies ≡ d.notifies =
                  ap (λ (z : Dao B). z.notifies) same₂ ∙ ap (λ (z : Dao B). z.notifies) read₁ in
                let marked : (Notify → Bool) → List Notify → List Notify =
                  λ m l. map (λ n. if m n && not n.is_read then as_read now n else n) l in
                let changed : all_notifies d' ≡ marked mine (all_notifies d) =
                  ap (λ (z : Dao B). all_notifies z) end_
                  ∙ B.notifies.update_select pick (as_read now) d₂.notifies rows (λ n. refl) put
                  ∙ ap (λ x. marked mine (B.notifies.select x)) before in
                let rest : Dao B → Dao B =
                  λ z. record z { notifies = d'.notifies; cache = d'.cache } in
                (
                  unread_at mine now (all_notifies d) d' mine_last changed,
                  changed ∙ ap (λ m. marked m (all_notifies d)) mine_first,
                  ap rest end_ ∙ ap rest same₂ ∙ ap rest read₁,
                )
          ]
        ]
