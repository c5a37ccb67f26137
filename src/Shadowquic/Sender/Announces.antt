-- ===== src/Shadowquic/Sender/Announces.antt =====
-- The context ids that a call announces (src/proxy/shadowquic_udp.rs: create_sender and its callers).
use quic_proxy.Common.{
  ℕ, ◌+◌, ◌^◌, ◌<◌, ◌≤◌, ◌≡◌, ◌≢◌, refl, sym, subst, ap, ◌∙◌, ◌⊎◌, Bool, true, false, Option, none,
  some, List, [], ◌∷◌, ◌++◌, Result, ok, err, append_assoc, append-nil, if_both, arith, Bool-cases,
  inl, inr,
}
use quic_proxy.Common.Bytes.{be16}
use quic_proxy.Common.Assoc.{lookup, insert, lookup-insert_self, lookup-insert_ne}
use quic_proxy.Addr.{TargetAddr, to_bytes}
use quic_proxy.Shadowquic.Sender.{
  control, uni, emit, target_beq, target_beq_iff, target_eq, Sender, Session, SendError,
  open_failed, header_failed, Answers, open_stream, announced, create_sender, fill_cell, counted,
}
use quic_proxy.Shadowquic.Sender.Ids.{Sends}
use quic_proxy.Shadowquic.Sender.News.{
  control_ids, Among, Increasing, Increasing-append, Among-left, Among-right, control_ids-append,
  control_id-announcement,
}

-- From `s` to `t` at most `k` ids are given out. Those that are announced are increasing, and a new
-- sender has one of them.
pub record News (k next : ℕ) (s : Session) (after : ℕ) (t : Session) : Type 0 where
  pub ids : List ℕ
  pub at_most : after ≤ next + k
  pub out_is : control_ids t.out ≡ control_ids s.out ++ ids
  pub rising : Increasing next ids after
  pub origin : (a : TargetAddr) (x : Sender) → Sends a x t → Sends a x s ⊎ Among x.context_id ids

pub News-nothing :
    (k next after : ℕ) (s t : Session)
    → next ≤ after
    → after ≤ next + k
    → control_ids t.out ≡ control_ids s.out
    → ((a : TargetAddr) (x : Sender) → Sends a x t → Sends a x s)
    → News k next s after t
News-nothing k next after s t l m e f = record {
  ids = [];
  at_most = m;
  out_is = e ∙ sym (append-nil (control_ids s.out));
  rising = l;
  origin = λ a x h. inl (f a x h);
}

pub News-trans :
    (j k n1 n2 n3 : ℕ) (s1 s2 s3 : Session)
    → News j n1 s1 n2 s2
    → News k n2 s2 n3 s3
    → News (j + k) n1 s1 n3 s3
News-trans j k n1 n2 n3 s1 s2 s3 f g =
    let m = f.at_most in
    let n = g.at_most in
    record {
      ids = f.ids ++ g.ids;
      at_most = omega arith;
      out_is =
          g.out_is
          ∙ (ap (λ x. x ++ g.ids) f.out_is ∙ append_assoc (control_ids s1.out) f.ids g.ids);
      rising = Increasing-append n1 f.ids n2 g.ids n3 f.rising g.rising;
      origin = λ a x h. elim (g.origin a x h) [
        | inr new ↦ inr (Among-right x.context_id f.ids g.ids new)
        | inl old ↦ elim (f.origin a x old) [
          | inl before ↦ inl before
          | inr one ↦ inr (Among-left x.context_id f.ids g.ids one)
        ]
      ];
    }

abbrev pub CallNews : {A : Type 0} → ℕ → ℕ → Session → ℕ × Session × A → Type 0
CallNews k next s (after, t, r) = News k next s after t

pub CallNews-trans :
    {A : Type 0} (j k n1 n2 : ℕ) (s1 s2 : Session) (x : ℕ × Session × A)
    → News j n1 s1 n2 s2
    → CallNews k n2 s2 x
    → CallNews (j + k) n1 s1 x
CallNews-trans j k n1 n2 s1 s2 (n3, s3, r) f g = News-trans j k n1 n2 n3 s1 s2 s3 f g

-- The id of a sender that create_sender makes has been announced; without a sender the id may have
-- been announced or not.
abbrev Announces : ℕ → Session → Session × Result SendError Sender → Type 0
Announces id s (t, ok x) =
    (t.sender_map ≡ s.sender_map)
    × (control_ids t.out ≡ control_ids s.out ++ (id ∷ []))
    × (x.context_id ≡ id)
Announces id s (t, err e) =
    (t.sender_map ≡ s.sender_map)
    × (ids : List ℕ) × (control_ids t.out ≡ control_ids s.out ++ ids)
    × Increasing id ids (id + 1)

module _ (id : ℕ) (s t : Session) (map_is : t.sender_map ≡ s.sender_map)
    (out_is : control_ids t.out ≡ control_ids s.out ++ (id ∷ [])) where
  failed : (e : SendError) → Announces id s (t, err e)
  failed e = (map_is, id ∷ [], out_is, (omega arith, omega arith))

  open_stream-Announces :
      (w : Bool) (opened : Option ℕ) → Announces id s (open_stream w id opened t)
  unfolding open_stream
  open_stream-Announces w none = failed open_failed
  open_stream-Announces true (some n) = (
    map_is,
    control_ids-append t.out (uni n (be16 id) ∷ []) ∙ (append-nil (control_ids t.out) ∙ out_is),
    refl,
  )
  open_stream-Announces false (some n) = failed header_failed

  announced-Announces : (io : Answers) → Announces id s (announced io id t)
  unfolding announced
  announced-Announces io =
      if_both (Announces id s) t.is_over_unistream
        (open_stream-Announces io.header_written io.opened) (map_is, out_is, refl)

pub create_sender-Announces :
    (io : Answers) (id : ℕ) (target : TargetAddr) (s : Session)
    → id < 2 ^ 16
    → Announces id s (create_sender io id target s)
unfolding create_sender
create_sender-Announces io id target s l =
    let told = emit (control (to_bytes target ++ be16 id)) s in
    let out_is : control_ids told.out ≡ control_ids s.out ++ (id ∷ []) =
      control_ids-append s.out (control (to_bytes target ++ be16 id) ∷ [])
      ∙ ap (λ n. control_ids s.out ++ (n ∷ [])) (control_id-announcement (to_bytes target) id l) in
    if_both (Announces id s) io.control_written (announced-Announces id s told refl out_is io)
      (refl, [], sym (append-nil (control_ids s.out)), omega arith)

-- A sender after an entry is the one of the entry or one from before.
pub insert-origin :
    (target : TargetAddr) (cell : Option Sender) (a : TargetAddr) (y : Sender) (s : Session)
    → Sends a y (record s { sender_map = insert target cell s.sender_map })
    → (cell ≡ some y) ⊎ Sends a y s
insert-origin target cell a y s h = elim (Bool-cases (target_beq target a)) [
  | inl same ↦
      let q : target ≡ a = (target_beq_iff target a).0 same in
      let there = lookup-insert_self target cell s.sender_map in
      let own : lookup target (insert target cell s.sender_map) ≡ some (some y) =
        subst (λ b. lookup b (insert target cell s.sender_map) ≡ some (some y)) (sym q) h in
      let both : some cell ≡ some (some y) = sym there ∙ own in inl (inside both)
  | inr n ↦
      let apart : target ≢ a = λ q. let t = (target_beq_iff target a).1 q in cc in
      inr (sym (lookup-insert_ne target a cell s.sender_map apart) ∙ h)
]
  where
    inside : {x y : Option Sender} → some x ≡ some y → x ≡ y
    inside e = cc

pub fill_cell-CallNews :
    (target : TargetAddr) (next after : ℕ) (s : Session) (r : Session × Result SendError Sender)
    → after ≡ next + 1
    → Announces next s r
    → CallNews 1 next s (counted after (fill_cell target r))
unfolding fill_cell
fill_cell-CallNews target next after s (t, ok x) l (e, o, i) = record {
  ids = next ∷ [];
  at_most = omega arith;
  out_is = o;
  rising = (omega arith, omega arith);
  origin = λ a y h. elim (insert-origin target (some x) a y t h) [
    | inl own ↦
        let it : x ≡ y = cc in
        let id : y.context_id ≡ next = sym (ap (λ (z : Sender). z.context_id) it) ∙ i in
        inr (ground arith)
    | inr old ↦ inl (subst (λ m. lookup a m ≡ some (some y)) e old)
  ];
}
fill_cell-CallNews target next after s (t, err x) l (e, ids, o, up) = record {
  ids = ids;
  at_most = omega arith;
  out_is = o;
  rising = subst (λ h. Increasing next ids h) (sym l) up;
  origin = λ a y h. inl (subst (λ m. lookup a m ≡ some (some y)) e h);
}
