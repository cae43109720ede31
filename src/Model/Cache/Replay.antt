-- ===== src/Model/Cache/Replay.antt =====
-- CachingModelClient of model/cache.py: a request that was answered once is served from the cache.
use evalstack.Prelude.{
  ℕ, ◌+◌, ◌≡◌, ◌≢◌, refl, subst, ◌∙◌, sym, String, Option, none, some, arith, eq_iff, Option-cases,
  inl, inr,
}
use evalstack.Prelude.Dict.{Dict, get, update, get-update}
use evalstack.Json.{Json, null, boolean, int, str, arr, obj, sort_fields}
use evalstack.Model.{ModelResponse, Reply, answered}
use evalstack.Model.Cache.{
  encode, ResponseCache, Stored, json, not_json, not_utf8, path_for, read, get_response, put,
  Lookup, hit, miss, undecodable, invalid_key, from_cache, from_model, complete, after_get,
}
use evalstack.Model.Cache.Codec.{replayed, decode-encode}

module _ (text_of : Json → String) (number_of : Json → Option ℕ) where
  abbrev stored : ModelResponse → Stored
  stored r = json (obj (sort_fields (encode r)))

  put_at_path :
      (key path : String) (r : ModelResponse) (c : ResponseCache)
      → path_for key ≡ some path
      → put text_of number_of key r c
        ≡ some (record c { files = update path (stored r) (λ _. stored r) c.files })
  unfolding put
  put_at_path key path r c at = rw (at, put) refl

  get_at_path :
      (key path : String) (c : ResponseCache)
      → path_for key ≡ some path
      → get_response text_of number_of key c ≡ read text_of number_of (get path c.files) c
  unfolding get_response
  get_at_path key path c at = rw (at, get_response) refl

  read-stored :
      (r : ModelResponse) (c : ResponseCache)
      → read text_of number_of (some (stored r)) c
        ≡ (record c { hits = c.hits + 1 }, hit (replayed r))
  unfolding read
  read-stored r c = rw (decode-encode text_of number_of r) refl

  found_after_put :
      (path : String) (v : Stored) (m : Dict Stored) → get path (update path v (λ _. v) m) ≡ some v
  found_after_put path v m = get-update path v (λ _. v) path m ∙ rw ((eq_iff path path).1 refl) refl

  other_after_put :
      (path other : String) (v : Stored) (m : Dict Stored)
      → path ≢ other
      → get other (update path v (λ _. v) m) ≡ get other m
  other_after_put path other v m ne =
      get-update path v (λ _. v) other m ∙ ground (arith, eq_iff path other)

  some_inj : {A : Type 0} {a b : A} → some a ≡ some b → a ≡ b
  some_inj h = ground (arith, h)

  -- What a lookup gives does not depend on the counters and the other files.
  same_lookup :
      (o : Option Stored) (c d : ResponseCache)
      → (read text_of number_of o d).1 ≡ (read text_of number_of o c).1
  unfolding read
  same_lookup none c d = refl
  same_lookup (some (json null)) c d = refl
  same_lookup (some (json (boolean b))) c d = refl
  same_lookup (some (json (int n))) c d = refl
  same_lookup (some (json (str t))) c d = refl
  same_lookup (some (json (arr vs))) c d = refl
  same_lookup (some (json (obj fs))) c d = refl
  same_lookup (some not_json) c d = refl
  same_lookup (some not_utf8) c d = refl

  -- After `put` the same key gives the response back, as read from the file, and a key of another
  -- file gives what it gave before.
  get-put :
      (key other path path' : String) (r : ModelResponse) (c d : ResponseCache)
      → path_for key ≡ some path
      → path_for other ≡ some path'
      → path ≢ path'
      → put text_of number_of key r c ≡ some d
      → ((get_response text_of number_of key d).1 ≡ hit (replayed r))
        × ((get_response text_of number_of other d).1 ≡ (get_response text_of number_of other c).1)
  get-put key other path path' r c d at at' ne h =
      let e : record c { files = update path (stored r) (λ _. stored r) c.files } ≡ d =
        some_inj (sym (put_at_path key path r c at) ∙ h) in
      (
        subst (λ x. (get_response text_of number_of key x).1 ≡ hit (replayed r)) e
            (rw
              (
                get_at_path key path
                    (record c { files = update path (stored r) (λ _. stored r) c.files }) at,
                found_after_put path (stored r) c.files,
                read-stored r (record c { files = update path (stored r) (λ _. stored r) c.files }),
              )
              refl),
        subst
            (λ x.
              (get_response text_of number_of other x).1
              ≡ (get_response text_of number_of other c).1)
            e
            (rw
              (
                get_at_path other path'
                    (record c { files = update path (stored r) (λ _. stored r) c.files }) at',
                get_at_path other path' c at',
                other_after_put path path' (stored r) c.files ne,
              )
              (same_lookup (get path' c.files) c _)),
      )

  put_before :
      (key : String) (r : ModelResponse) (d : ResponseCache) (x : ResponseCache × Lookup)
      → after_get text_of number_of key (answered r) x ≡ (d, from_model r)
      → put text_of number_of key r x.0 ≡ some d
  put_before key r d (c, hit q) h = absurd (ground arith)
  put_before key r d (c, invalid_key) h = absurd (ground arith)
  put_before key r d (c, undecodable) h = absurd (ground arith)
  put_before key r d (c, miss) h = elim (Option-cases (put text_of number_of key r c)) [
    | inl e ↦ absurd (ground arith)
    | inr (d', e) ↦ ground arith
  ]

  served :
      (key path : String) (r : ModelResponse) (inner : Reply) (c d : ResponseCache)
      → path_for key ≡ some path
      → put text_of number_of key r c ≡ some d
      → complete text_of number_of key inner d
        ≡ (record d { hits = d.hits + 1 }, from_cache (replayed r))
  unfolding complete
  served key path r inner c d at h =
      let e : record c { files = update path (stored r) (λ _. stored r) c.files } ≡ d =
        some_inj (sym (put_at_path key path r c at) ∙ h) in
      let there : get path d.files ≡ some (stored r) =
        subst (λ x. get path x.files ≡ some (stored r)) e
          (found_after_put path (stored r) c.files) in
      rw (get_at_path key path d at, there, read-stored r d) refl

  put_needs_path :
      (key : String) (r : ModelResponse) (c d : ResponseCache)
      → put text_of number_of key r c ≡ some d
      → path_for key ≢ none
  unfolding put
  put_needs_path key r c d h no_path = cc (rw (no_path, put) at h)

  -- Once the inner client has answered a request and the answer was kept, the next call of the same
  -- request is served from the cache whatever the inner client would say: the same response with the
  -- arguments of its tool calls in order, at no cost, marked as cached, and one more hit counted.
  pub complete_again :
      (key : String) (r : ModelResponse) (inner : Reply) (c d : ResponseCache)
      → complete text_of number_of key (answered r) c ≡ (d, from_model r)
      → complete text_of number_of key inner d
        ≡ (record d { hits = d.hits + 1 }, from_cache (replayed r))
  complete_again key r inner c d h =
      let before = (get_response text_of number_of key c).0 in
      let kept : put text_of number_of key r before ≡ some d =
        put_before key r d (get_response text_of number_of key c) (unfold complete in h) in
      elim (Option-cases (path_for key)) [
        | inl no_path ↦ absurd (put_needs_path key r before d kept no_path)
        | inr (path, at) ↦ served key path r inner before d at kept
      ]
