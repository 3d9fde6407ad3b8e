-- ===== src/Tests.antt =====
-- Concrete inputs: a set-top box and a dictionary that meet every hypothesis (Stb), a control
-- manager with something in all its parts (Busy), and the properties applied to them.
mod Stb
mod Busy
mod Control
mod Env
mod Session
mod Service
mod Notices
mod TaskLoop
mod Box
mod Cfg
mod Param
mod Device
mod Params
mod Stun
