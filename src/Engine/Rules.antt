-- ===== src/Engine/Rules.antt =====
-- Both rules together: the monitor, and locking.
use osdns.Prelude.{◌&&◌, arith}
use osdns.Platform.{Backend}
use osdns.Tx.{History, Tx, ret, ask}
use osdns.Tx.Logic.{Oracle, Permit, Post, Safe, after}
use osdns.Engine.Monitor.{monitor}
use osdns.Engine.Confined.{guarded}

abbrev pub rules : {D I : Type 0} → Backend D → Permit D I
rules b h c = monitor b h c && guarded h c

pub Safe-both :
    {D I A : Type 0} (b : Backend D) (o : Oracle D I) (p q : Post D I A) (m : Tx D I A)
    (h : History D I)
    → Safe o (monitor b) p m h
    → Safe o guarded q m h
    → Safe o (rules b) (λ g a. p g a × q g a) m h
Safe-both b o p q (ret a) h s t = (s, t)
Safe-both b o p q (ask c k) h s t =
    (ground arith, Safe-both b o p q (k (o h c)) (after o h c) s.1 t.1)
