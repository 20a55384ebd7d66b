-- ===== src/Bridge/Store/Boards.antt =====
-- A board numbers its posts upwards, and a page after a number shows what came later.
use omnidat.Prelude.{
  ℕ, ◌+◌, ◌≤◌, ◌<◌, String, false, Option, some, get_or, List, [], ◌∷◌, ◌++◌, map, ◌≡◌, refl, ap,
  ◌∙◌, arith, ◌==◌, filter, filter-append, ltb, max, string_eq, eq_iff, All, All-append, All-map,
  Bool-cases, if◌then◌else◌, ◌==◌, true, false, sym, if_then, if_else, inl, inr,
}
use omnidat.Sync.Rows.{Fields}
use omnidat.Bridge.Store.{
  TextOps, StoredPost, Store, empty, put, posts_of, apply, File, Bridge, event_id_of, PostOptions,
  poster_of, thread_of, post_op, dm_op, send_dm, mark_read, board_post,
}
use omnidat.Bridge.Store.Views.{is_after, board_item, board_page}
use omnidat.Bridge.Store.Recovery.{Call, send, mark, publish, perform, perform_all}

abbrev pub last_no : Store → String → ℕ
last_no s board = get_or (s.board_seq board) 0

-- The numbers rise, and none is above `top`.
abbrev Rising : ℕ → List StoredPost → Type 0
Rising low [] = Unit
Rising low (p ∷ ps) = (low < p.no) × Rising p.no ps

-- each board's posts have rising numbers from 1 on, up to the board's counter
abbrev pub IsNumbered : Store → Type 0
IsNumbered s =
    (board : String)
    → Rising 0 (posts_of s board) × All (λ p. p.no ≤ last_no s board) (posts_of s board)

Rising-append :
    (low : ℕ) (ps : List StoredPost) (p : StoredPost)
    → Rising low ps
    → All (λ q. q.no < p.no) ps
    → low < p.no
    → Rising low (ps ++ p ∷ [])
Rising-append low [] p r a lt = (lt, tt)
Rising-append low (q ∷ ps) p r a lt = (r.0, Rising-append q.no ps p r.1 a.1 a.0)

module _ {T : Type 0} (trim : String → String) (texts : TextOps T) where
  perform-IsNumbered :
      (c : Call) (b : Bridge T) → IsNumbered b.store → IsNumbered (perform trim texts c b).store
  unfolding perform send_dm mark_read board_post apply post_op dm_op
  perform-IsNumbered (send now from to body) b h = h
  perform-IsNumbered (mark now addr) b h = h
  perform-IsNumbered (publish now board body opts) b h = λ other.
      elim (Bool-cases (other == board)) [
        | inl own ↦ rw own (
          Rising-append 0 (posts_of b.store board) new (h board).0
              (All-map (λ p. p.no ≤ last) (λ p. p.no < last + 1) (λ p le. omega (arith, le))
                (posts_of b.store board) (h board).1)
              (omega arith),
          All-append (λ p. p.no ≤ max last (last + 1)) (posts_of b.store board) (new ∷ [])
              (All-map (λ p. p.no ≤ last) (λ p. p.no ≤ max last (last + 1))
                (λ p le. omega (arith, le)) (posts_of b.store board) (h board).1)
              (omega arith, tt),
        )
        | inr away ↦ rw away (h other)
      ]
    where
      last : ℕ
      last = last_no b.store board

      new : StoredPost
      new = record {
        no = last + 1;
        poster = poster_of trim opts.name;
        at = now;
        body = body;
        event_id = event_id_of (b.store.event_seq + 1);
        thread = thread_of opts.thread;
        ctx = get_or opts.ctx Fields.end;
      }

  perform_all-IsNumbered_from :
      (cs : List Call) (b : Bridge T)
      → IsNumbered b.store
      → IsNumbered (perform_all trim texts cs b).store
  unfolding perform_all
  perform_all-IsNumbered_from [] b h = h
  perform_all-IsNumbered_from (c ∷ cs) b h =
      perform_all-IsNumbered_from cs (perform trim texts c b) (perform-IsNumbered c b h)

  -- From an empty store, whatever the calls, the posts of each board have strictly rising numbers
  -- from 1 on, none above the board's counter.
  pub perform_all-IsNumbered :
      (cs : List Call) (disk : Option (File T))
      → IsNumbered (perform_all trim texts cs (record { store = empty; disk = disk })).store
  perform_all-IsNumbered cs disk =
      perform_all-IsNumbered_from cs (record { store = empty; disk = disk }) (λ board. (tt, tt))

none_after :
    (n : ℕ) (ps : List StoredPost) → All (λ p. p.no ≤ n) ps → filter (is_after (some n)) ps ≡ []
none_after n [] h = refl
none_after n (p ∷ ps) h =
    let old : ltb n p.no ≡ false = ground (arith, h.0) in rw old (none_after n ps h.1)

map_append : {A B : Type 0} (f : A → B) (xs ys : List A) → map f (xs ++ ys) ≡ map f xs ++ map f ys
map_append f [] ys = refl
map_append f (x ∷ xs) ys = ap (λ zs. f x ∷ zs) (map_append f xs ys)

-- A page after the last number of a board shows nothing; after a post, whose number is returned,
-- a page of a board after the number that was its last before shows that post alone if it is the
-- board posted to, and nothing otherwise.
pub board_post-page :
    {T : Type 0} (trim : String → String) (texts : TextOps T) (now : ℕ) (board body : String)
    (opts : PostOptions) (b : Bridge T) (other : String)
    → IsNumbered b.store
    → let posted = board_post texts trim now board body opts b in
      (board_page b.store other (some (last_no b.store other)) ≡ [])
      × (board_page posted.1.store other (some (last_no b.store other)) ≡ (
          if other == board
          then (record {
            no = posted.0.0;
            poster = poster_of trim opts.name;
            ts = now;
            body = body;
            event_id = posted.0.1;
          })
            ∷ []
          else []))
unfolding board_post post_op apply board_page board_item
board_post-page trim texts now board body opts b other h = (
  ap (map board_item) old,
  elim (Bool-cases (other == board)) [
    | inl own ↦ if_then _ (other == board) own (
        ap (λ ps. map board_item (filter (is_after (some last)) ps)) (own_posts own)
        ∙ ap (map board_item) (filter-append (is_after (some last)) (posts_of s other) (new ∷ []))
        ∙ ap (λ ps. map board_item (ps ++ filter (is_after (some last)) (new ∷ []))) old
        ∙ ap (map board_item) (new_shown own))
    | inr away ↦ if_else _ (other == board) away (
        ap (λ ps. map board_item (filter (is_after (some last)) ps)) (other_posts away)
        ∙ ap (map board_item) old)
  ],
)
  where
    s : Store
    s = b.store

    last : ℕ
    last = last_no s other

    new : StoredPost
    new = record {
      no = last_no s board + 1;
      poster = poster_of trim opts.name;
      at = now;
      body = body;
      event_id = event_id_of (s.event_seq + 1);
      thread = thread_of opts.thread;
      ctx = get_or opts.ctx Fields.end;
    }

    old : filter (is_after (some last)) (posts_of s other) ≡ []
    old = none_after last (posts_of s other) (h other).1

    boards' : String → Option (List StoredPost)
    boards' = put board (posts_of s board ++ new ∷ []) s.boards

    own_posts : (other == board) ≡ true → get_or (boards' other) [] ≡ posts_of s other ++ new ∷ []
    own_posts own = rw own (ap (λ k. posts_of s k ++ new ∷ []) (sym ((eq_iff other board).0 own)))

    other_posts : (other == board) ≡ false → get_or (boards' other) [] ≡ posts_of s other
    other_posts away = rw away refl

    same_last : (other == board) ≡ true → last ≡ last_no s board
    same_last own = ap (last_no s) ((eq_iff other board).0 own)

    new_shown : (other == board) ≡ true → filter (is_after (some last)) (new ∷ []) ≡ new ∷ []
    new_shown own = ground (arith, same_last own)
