-- ===== src/Examples.antt =====
-- Runs of the program on concrete inputs, and each result applied to one.
mod Config
mod Links
mod Commands
mod Server
mod Shell
mod Ssh
mod Plans
mod Endings
mod Program
mod Resolver
mod OpenVpn
