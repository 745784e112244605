-- ===== src/Daemon/Views/Tracks.antt =====
-- A projection that a record's journal continues, and what the record's pages are for it.
use whale_ai_sdk.Base.{
  ◌+◌, ◌++◌, ◌-◌, ◌∷◌, ◌≡◌, ◌≤◌, Bool-cases, List, [], append_assoc, ap, arith, drop, leb, length,
  length-append, ltb, refl, suc, sym, take, take_nil, take_same, take-drop, ℕ, ◌∙◌, inl, inr, subst,
}
use whale_ai_sdk.Daemon.Views.Journal.{JournalEntry}
use whale_ai_sdk.Daemon.Views.Rebuild.{Rebuilds, step}
use whale_ai_sdk.Daemon.Views.Records.{between}
use whale_ai_sdk.Daemon.Views.Walk.{Walk, envelopes}
use whale_ai_sdk.Protocol.Views.Types.{SessionSnapshot}

module _ {V : Type 0} where
  Rebuilds-length :
      (base : SessionSnapshot V) (entries : List (JournalEntry V)) (current : SessionSnapshot V)
      → Rebuilds base entries current
      → current.cursor.seq ≡ base.cursor.seq + length entries
  Rebuilds-length base [] current same = let h = ap (λ s. s.cursor.seq) same in omega arith
  Rebuilds-length base (entry ∷ entries) current (next, applied, rest) =
      let (reached, follows) = step base entry.envelope next applied in
      let later = Rebuilds-length next entries current rest in ground arith

  -- The events of a journal past a cursor that is not ahead of its base.
  between-take :
      (k t : ℕ) (base : SessionSnapshot V) (entries : List (JournalEntry V))
      (current : SessionSnapshot V)
      → Rebuilds base entries current
      → k ≤ base.cursor.seq
      → between k t entries ≡ take (t - base.cursor.seq) (envelopes entries)
  unfolding between
  between-take k t base [] current same le = sym (take_nil (t - base.cursor.seq))
  between-take k t base (entry ∷ entries) current (next, applied, rest) le =
      let (reached, follows) = step base entry.envelope next applied in
      let later = between-take k t next entries current rest (ground arith) in
      let events = envelopes (entry ∷ entries) in
      elim (Bool-cases (leb entry.envelope.cursor.seq t)) [
        | inl within ↦
            let taken : take (t - base.cursor.seq) events
                ≡ entry.envelope ∷ take (t - next.cursor.seq) (envelopes entries) =
              take_same (t - base.cursor.seq) (suc (t - next.cursor.seq)) events (ground arith) in
            ground arith
        | inr past ↦
            let none_left : take (t - base.cursor.seq) events ≡ [] =
              take_same (t - base.cursor.seq) 0 events (ground arith) in
            let none_later : take (t - next.cursor.seq) (envelopes entries) ≡ [] =
              take_same (t - next.cursor.seq) 0 (envelopes entries) (ground arith) in
            ground arith
      ]

  between-skip :
      (k t : ℕ) (base : SessionSnapshot V) (pre post : List (JournalEntry V))
      (current : SessionSnapshot V)
      → Rebuilds base (pre ++ post) current
      → base.cursor.seq + length pre ≤ k
      → between k t (pre ++ post) ≡ between k t post
  unfolding between
  between-skip k t base [] post current h le = refl
  between-skip k t base (entry ∷ pre) post current (next, applied, rest) le =
      let (reached, follows) = step base entry.envelope next applied in
      let later = between-skip k t next pre post current rest (ground arith) in ground arith

  pub record Tracks (base : SessionSnapshot V) (journal : List (JournalEntry V))
      (current c : SessionSnapshot V) : Type 0 where
    pub pre : List (JournalEntry V)
    pub post : List (JournalEntry V)
    pub split : journal ≡ pre ++ post
    pub rest : Rebuilds c post current

  pub Tracks-between :
      (base : SessionSnapshot V) (journal : List (JournalEntry V)) (current c : SessionSnapshot V)
      (t : ℕ)
      → Rebuilds base journal current
      → (p : Tracks base journal current c)
      → (between c.cursor.seq t journal ≡ take (t - c.cursor.seq) (envelopes p.post))
        × (current.cursor.seq ≡ c.cursor.seq + length p.post)
  Tracks-between base journal current c t h p =
      let split = p.split in
      let h' = subst (λ j. Rebuilds base j current) split h in
      let whole = Rebuilds-length base (p.pre ++ p.post) current h' in
      let part = Rebuilds-length c p.post current p.rest in
      let both = length-append p.pre p.post in
      (
        ap (λ j. between c.cursor.seq t j) split
            ∙ between-skip c.cursor.seq t base p.pre p.post current h' (omega arith)
            ∙ between-take c.cursor.seq t c p.post current p.rest (omega arith),
        part,
      )

  pub record Located (k : ℕ) (base : SessionSnapshot V) (journal : List (JournalEntry V))
      (current : SessionSnapshot V) : Type 0 where
    pub at : SessionSnapshot V
    pub tracks : Tracks base journal current at
    pub place : at.cursor ≡ record base.cursor { seq = k }

  -- Every cursor from the base to the current one is that of a projection on the way.
  pub locate :
      (k : ℕ) (base : SessionSnapshot V) (journal : List (JournalEntry V))
      (current : SessionSnapshot V)
      → Rebuilds base journal current
      → base.cursor.seq ≤ k
      → k ≤ current.cursor.seq
      → Located k base journal current
  locate k base [] current same lo hi =
      let h = ap (λ s. s.cursor.seq) same in
      let exact : k ≡ base.cursor.seq = omega arith in
      record {
        at = base;
        tracks = record { pre = []; post = []; split = refl; rest = same };
        place = ground arith;
      }
  locate k base (entry ∷ journal) current (next, applied, rest) lo hi =
      let (reached, follows) = step base entry.envelope next applied in
      elim (Bool-cases (ltb base.cursor.seq k)) [
        | inl later ↦
            let l = locate k next journal current rest (ground arith) hi in
            let place = l.place in
            record {
              at = l.at;
              tracks = record {
                pre = entry ∷ l.tracks.pre;
                post = l.tracks.post;
                split = ap (λ j. entry ∷ j) l.tracks.split;
                rest = l.tracks.rest;
              };
              place = ground arith;
            }
        | inr here ↦ record {
          at = base;
          tracks = record {
            pre = [];
            post = entry ∷ journal;
            split = refl;
            rest = (next, applied, rest);
          };
          place = ground arith;
        }
      ]

  -- A projection that a prefix of the later events was applied to is tracked too.
  pub Tracks-advance :
      (base : SessionSnapshot V) (journal : List (JournalEntry V)) (current c : SessionSnapshot V)
      (p : Tracks base journal current c) (m : ℕ) (w : Walk m c p.post current)
      → Tracks base journal current w.end
  Tracks-advance base journal current c p m w = record {
    pre = p.pre ++ take m p.post;
    post = drop m p.post;
    split =
        p.split
        ∙ ap (λ j. p.pre ++ j) (sym (take-drop m p.post))
        ∙ sym (append_assoc p.pre (take m p.post) (drop m p.post));
    rest = w.rest;
  }

  -- A tracked projection is not behind the base; at the last cursor it is the current one.
  pub Tracks-base :
      (base : SessionSnapshot V) (journal : List (JournalEntry V)) (current c : SessionSnapshot V)
      → Rebuilds base journal current
      → Tracks base journal current c
      → base.cursor.seq ≤ c.cursor.seq
  Tracks-base base journal current c h p =
      let whole = Rebuilds-length base journal current h in
      let part = Rebuilds-length c p.post current p.rest in
      let both = length-append p.pre p.post in let same = ap (λ j. length j) p.split in omega arith

  pub Tracks-end :
      (base : SessionSnapshot V) (journal : List (JournalEntry V)) (current c : SessionSnapshot V)
      → (p : Tracks base journal current c) → c.cursor.seq ≡ current.cursor.seq
      → c ≡ current
  Tracks-end base journal current c p h = ended p.post p.rest
    where
      ended : (post : List (JournalEntry V)) → Rebuilds c post current → c ≡ current
      ended [] same = same
      ended (entry ∷ post) rest =
          let part = Rebuilds-length c (entry ∷ post) current rest in absurd (omega arith)
