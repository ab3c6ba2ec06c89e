-- ===== src/Tests.antt =====
-- Runs of the modelled code on concrete inputs, and the theorems at inputs that meet their hypotheses.
mod Tcp
mod Raw
mod Bacnet
mod Ip
mod Reader
mod Pe
mod Carver
mod Http
mod Smb
mod Dns
mod Engine
mod Run
