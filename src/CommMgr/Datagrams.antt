-- ===== src/CommMgr/Datagrams.antt =====
-- `onUdpRead` of a `CCommMgr`: every datagram stands for itself.
use lce.Prelude.Memory.{Memory}
use lce.SocketBuf.{SocketBuf, reset}
use lce.SocketBuf
use lce.CommMgr.Sound.{Sound}
use lce.CommMgr.Emptied.{Emptied, Datagram}
