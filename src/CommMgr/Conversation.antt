-- ===== src/CommMgr/Conversation.antt =====
-- What a connection of a `CCommMgr` that speaks in frames has delivered.
use lce.Prelude.{
  ℕ, ◌≡◌, refl, sym, ap, ap₂, ◌∙◌, ◌⊎◌, inl, inr, List, [], ◌∷◌, ◌++◌, append-nil, append_assoc,
  append_split, length, length-append, map, arith,
}
use mathlib.Core.Path.{subst}
use native.Mathlib.Decide.{ℕ_discrete}
use lce.Prelude.Memory.{Memory}
use lce.PackageFilter.{is_whole_marked}
use lce.PackageFilter.Framing.{frame, length-frame}
use lce.CommMgr.{Receiving, World, Manager, Outcome}
use lce.CommMgr.Sound.{packages, arrived, Sound}
use lce.CommMgr.Quiet.{Fair, close_lem}
use lce.CommMgr.Writes.{Contains}
use lce.CommMgr.Stream.{write-Writing}
use lce.CommMgr.Callbacks.{stream_of}
use lce.CommMgr.Received.{Received}
use lce.CommMgr.Receive.{on_tcp_read_lem}
use lce.CommMgr.Frames.{frames, AllFit, Parted, cut_frames, Waits, stuck_frames, marked-Honest}
use lce.CommMgr.Talk.{
  Talked, same_after, map_nil, map-append, Talk, Calm-Talked, closed_read, start, writing, closing,
  reading,
}

module _ (world : World) (fresh : ℕ → Memory ℕ) where
  -- A read event adds packages to a connection that has delivered some.
  read-Talked :
      {fd width : ℕ} {m m1 : Manager} {ps : List (List ℕ)} (tail rest got : List ℕ)
      (recv : ℕ → Receiving) {o : Outcome (Unit {0})}
      → (t : Talked world fresh fd width m m1 ps (got ++ tail))
      → rest ++ (got ++ tail) ≡ frames width t.rs
      → AllFit width t.rs
      → Waits width rest t.rs
      → (r : Received m1.log m1.servers fd (is_whole_marked width) rest recv o) → r.got ≡ got
      → Talked world fresh fd width m r.after ps tail
  read-Talked {fd} {width} {m} {m1} {ps} tail rest got recv t e fit waits r same = record {
    sound = r.sound;
    same_servers = r.same_servers ∙ t.same_servers;
    qs = t.qs ++ p.qs;
    rs = p.rs;
    parts = t.parts ∙ ap (λ k. t.qs ++ k) p.parts ∙ sym (append_assoc t.qs p.qs p.rs);
    delivered =
        r.delivered
        ∙ ap₂ ◌++◌ t.delivered p.given
        ∙ append_assoc (packages fd m.log) (map (frame width) t.qs) (map (frame width) p.qs)
        ∙ ap (λ k. packages fd m.log ++ k) (sym (map-append (frame width) t.qs p.qs));
    state = elim r.state [
      | inl z ↦ inl z
      | inr (holds, how) ↦ inr (
        r.rest,
        holds,
        p.left,
        p.fit,
        elim how [
          | inl (none_new, same_rest) ↦ still none_new same_rest
          | inr (s, ne) ↦ stuck_frames width p.rs tail s ne p.left p.fit
        ],
      )
    ];
  }
    where
      p : Parted width t.rs r.new r.rest tail
      p =
          cut_frames width t.rs tail r.cuts
            (append_assoc rest r.got tail ∙ ap (λ k. rest ++ (k ++ tail)) same ∙ e) fit

      same_rs : r.new ≡ [] → t.rs ≡ p.rs
      same_rs none_new =
          p.parts ∙ ap (λ k. k ++ p.rs) (map_nil (frame width) p.qs (sym none_new ∙ p.given))

      still : r.new ≡ [] → r.rest ≡ rest → Waits width r.rest p.rs
      still none_new same_rest = subst (Waits width r.rest) (same_rs none_new) (rw same_rest waits)

  -- A connection of a manager in use, with a fair system and processor, starts with an empty receive
  -- buffer and is sent frames of payloads whose lengths fit. However this stream is cut into reads, and
  -- whatever the application writes or closes in between, the processor is given the frames of a first
  -- part of the payloads, each of them whole, once and in order. While the connection is open, what was
  -- received of the others waits in its buffer, and is less than a frame.
  pub talk_lem :
      {fd width : ℕ} {m m' : Manager} {bs : List ℕ} (ps : List (List ℕ)) (tail : List ℕ)
      → Fair world m.servers
      → Sound m
      → Contains (m.clients fd).recv_buf []
      → AllFit width ps
      → Talk world fresh fd width m bs m'
      → bs ++ tail ≡ frames width ps
      → Talked world fresh fd width m m' ps tail
  talk_lem {fd} {width} {m} ps tail fair h empty fit start e = record {
    sound = h;
    same_servers = refl;
    qs = [];
    rs = ps;
    parts = refl;
    delivered = sym (append-nil (packages fd m.log));
    state = inr ([], empty, e, fit, at_start ps);
  }
    where
      at_start : (ps : List (List ℕ)) → Waits width [] ps
      at_start [] = tt
      at_start (p ∷ ps) = omega (arith, length-frame width p)
  talk_lem {fd} {width} {m} ps tail fair h empty fit
        (writing bs m1 m2 g srv out closes server b before known returns) e =
      let t = talk_lem ps tail fair h empty fit before e in
      let w =
        write-Writing world fresh g srv out closes server (rw t.same_servers fair) t.sound known
          (stream_of g t.sound).1 in
      subst (λ k. Talked world fresh fd width m k ps tail) (same_after (sym w.returns ∙ returns))
        (Calm-Talked world fresh w.calm t)
  talk_lem {fd} {width} {m} ps tail fair h empty fit (closing bs m1 m2 g before returns) e =
      let t = talk_lem ps tail fair h empty fit before e in
      let c = close_lem g t.sound in
      subst (λ k. Talked world fresh fd width m k ps tail) (same_after (sym c.returns ∙ returns))
        (Calm-Talked world fresh c.calm t)
  talk_lem {fd} {width} {m} ps tail fair h empty fit
        (reading bs m1 got m2 server recv before known listens uses bounded returns gives) e =
      read_on
        (talk_lem ps (got ++ tail) fair h empty fit before (sym (append_assoc bs got tail) ∙ e))
    where
      done_closed :
          (t : Talked world fresh fd width m m1 ps (got ++ tail))
          → (m1.clients fd).fd ≡ 0
          → Talked world fresh fd width m m1 ps tail
      done_closed t z = record {
        sound = t.sound;
        same_servers = t.same_servers;
        qs = t.qs;
        rs = t.rs;
        parts = t.parts;
        delivered = t.delivered;
        state = inl z;
      }

      read_on :
          Talked world fresh fd width m m1 ps (got ++ tail)
          → Talked world fresh fd width m m2 ps tail
      read_on t = elim (ℕ_discrete (m1.clients fd).fd 0) [
        | yes z ↦
            subst (λ k. Talked world fresh fd width m k ps tail)
              (same_after (sym (closed_read world fresh m1 fd recv z) ∙ returns)) (done_closed t z)
        | no ne ↦ elim t.state [
          | inl z ↦ absurd (ne z)
          | inr (rest, holds, left, fits, waits) ↦
              let r =
                on_tcp_read_lem world fresh fd (is_whole_marked width) server rest recv
                  (rw t.same_servers fair) t.sound (marked-Honest width) ne known listens uses holds
                  bounded in
              let same : r.after ≡ m2 = same_after (sym r.returns ∙ returns) in
              let got_same : r.got ≡ got =
                (append_split (length (arrived fd m1.log)) (arrived fd m1.log) r.got
                  (arrived fd m1.log) got refl refl
                  (sym r.arrives ∙ ap (λ k. arrived fd k.log) same ∙ gives)).1 in
              subst (λ k. Talked world fresh fd width m k ps tail) same
                (read-Talked tail rest got recv t left fits waits r got_same)
        ]
      ]

  -- A connection of a manager in use, with a fair system and processor, starts with an empty receive
  -- buffer and is sent frames of payloads whose lengths fit. Once all bytes of the frames have been
  -- received, in whatever reads, with whatever the application writes or closes in between, the
  -- processor has been given exactly these frames, in order, unless the connection was closed.
  pub talk_all :
      {fd width : ℕ} {m m' : Manager} (ps : List (List ℕ))
      → Fair world m.servers
      → Sound m
      → Contains (m.clients fd).recv_buf []
      → AllFit width ps
      → Talk world fresh fd width m (frames width ps) m'
      → ((m'.clients fd).fd ≡ 0) ⊎ (packages fd m'.log ≡ packages fd m.log ++ map (frame width) ps)
  talk_all {fd} {width} {m} {m'} ps fair h empty fit talk =
      go (talk_lem ps [] fair h empty fit talk (append-nil (frames width ps)))
    where
      none_left :
          (rs : List (List ℕ)) (rest : List ℕ)
          → rest ++ [] ≡ frames width rs
          → Waits width rest rs
          → rs ≡ []
      none_left [] rest e waits = refl
      none_left (p ∷ rs) rest e waits = absurd (
          omega (
            arith,
            ap length e,
            length-append rest [],
            length-append (frame width p) (frames width rs),
          ))

      go :
          Talked world fresh fd width m m' ps []
          → ((m'.clients fd).fd ≡ 0)
            ⊎ (packages fd m'.log ≡ packages fd m.log ++ map (frame width) ps)
      go t = elim t.state [
        | inl z ↦ inl z
        | inr (rest, holds, left, fits, waits) ↦
            let all : t.qs ≡ ps =
              sym (append-nil t.qs)
              ∙ ap (λ k. t.qs ++ k) (sym (none_left t.rs rest left waits))
              ∙ sym t.parts in
            inr (t.delivered ∙ ap (λ k. packages fd m.log ++ map (frame width) k) all)
      ]
