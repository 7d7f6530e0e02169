-- ===== src/Help.antt =====
-- `PrintVersion` and `PrintHelp` (help.c).
use vpn_mgr.Base.{String, List, [], ◌∷◌}
use vpn_mgr.Process.{M, ◌>>◌, pure, emit, print}

unfoldable pub print_version : M (Unit {0})
print_version = emit (print "vpn_mgr: version 2.3\n")

-- What the calls of `printf` in `PrintHelp` print, in order.
abbrev pub help_texts : List String
help_texts =
    "Usage:\n"
    ∷ "  vpn_mgr protocols                        check which VPN protocols we can use on the local machine\n"
    ∷ "  vpn_mgr add <name> <url>                 add/update a VPN configuration\n"
    ∷ "  vpn_mgr list                             list configured VPNs\n"
    ∷ "  vpn_mgr config <name> <url>\n"
    ∷ "  vpn_mgr server <url>                     run as a VPN server (ppptls/pppssl mode only)\n"
    ∷ "  vpn_mgr connect <name>                   connect to VPN configured under name <name>\n"
    ∷ "  vpn_mgr connect <url>                    connect to VPN by url (no use of config files, everything on command-line)\n"
    ∷ "\n" ∷ "Options:\n"
    ∷ "  -c <path>             path to vendor-supplied vpn (wireguard or openvpn) config file\n"
    ∷ "  -conf <path>          path to vendor-supplied vpn (wireguard or openvpn) config file\n"
    ∷ "  -d <dev>              name of LOCAL network device (e.g. tun0) to use\n"
    ∷ "  -dev <dev>            name of LOCAL network device (e.g. tun0) to use\n"
    ∷ "  -ldev <dev>           name of LOCAL network device (e.g. tun0) to use\n"
    ∷ "  -local-dev <dev>      name of LOCAL network device (e.g. tun0) to use\n"
    ∷ "  -D <dev>              name of REMOTE network device (e.g. tun0) to use\n"
    ∷ "  -rdev <dev>           name of REMOTE network device (e.g. tun0) to use\n"
    ∷ "  -remote-dev <dev>     name of REMOTE network device (e.g. tun0) to use\n"
    ∷ "  -a <ip list>          list of IPs accessible at the remote end of the vpn connection\n"
    ∷ "  -A <ip list>          list of remote IPs to be routed DOWN the vpn connection\n"
    ∷ "  -L <ip address>       ip address of LOCAL end of tunnel\n"
    ∷ "  -laddr <ip address>   ip address of LOCAL end of tunnel\n"
    ∷ "  -local-address <ip address>   ip address of LOCAL end of tunnel\n"
    ∷ "  -R <ip address>       ip address of REMOTE end of tunnel\n"
    ∷ "  -raddr <ip address>   ip address of REMOTE end of tunnel\n"
    ∷ "  -remote-address <ip address>   ip address of REMOTE end of tunnel\n"
    ∷ "  -tcp                  use tcp, not udp for connection (this only applies to openvpn which can use either\n"
    ∷ "  -cert <path>          path to file holding the client certificate for a vpn connection\n"
    ∷ "  -key <path>           path to file holding the client private key for a vpn connection (if not supplied, assumed to be stored in -cert file along with certificate)\n"
    ∷ "  -k <path>             path to file holding the client private key for a vpn connection\n"
    ∷ "  -server-key <path>    path to file holding the CA certificates for server verification (or server public key for wireguard)\n"
    ∷ "  -psk <path>           path to file holding the pre-shared-key for vpns using this instead of certificates\n"
    ∷ "  -ca <path>            path to file holding the CA certificates for server verification (or server public key for wireguard)\n"
    ∷ "  -ciphers <list>       comma-seperated list of ciphers to use\n"
    ∷ "  -up <file list>       colon-seperated list of scripts to run when vpn comes up (default /etc/vpn_mgr/<name>.up:/etc/vpn_mgr/default.up)\n"
    ∷ "  -down <file list>     colon-seperated list of scripts to run when vpn goes down (default /etc/vpn_mgr/<name>.down:/etc/vpn_mgr/default.down)\n"
    ∷ "  -V                    verify peer at the ppp level on ppp based vpns. Requires the server to identify itself with a username/pasword\n"
    ∷ "  -verify               verify peer at the ppp level on ppp based vpns. Requires the server to identify itself with a username/pasword\n"
    ∷ "  -user <username>      username for vpns that support username/password authentication\n"
    ∷ "  -pass <password>      password/preshared key for vpns that support username/password or PSK authentication\n"
    ∷ "  -passwd <password>    password/preshared key for vpns that support username/password or PSK authentication\n"
    ∷ "  -password <password>  password/preshared key for vpns that support username/password or PSK authentication\n"
    ∷ "  -pw <password>        password/preshared key for vpns that support username/password or PSK authentication\n"
    ∷ "  -local-sudo           force use of sudo locally, rather than trying both sudo and su\n"
    ∷ "  -local-su             force use of su locally, rather than trying both sudo and su\n"
    ∷ "  -remote-sudo          force use of sudo at remote end, rather than trying both sudo and su\n"
    ∷ "  -remote-su            force use of su at remote end, rather than trying both sudo and su\n"
    ∷ "  -remote-path          remote path to use when searching for executables not in normal path (e.g. pppd), defaults to '/sbin:/bin:/usr/sbin:/usr/bin:/usr/local/sbin:/usr/local/bin\n"
    ∷ "  -N                    use neither su or sudo at the remote end, assume remote is setup to run with root permission\n"
    ∷ "  -dns <ip list>        comma-separated list of dns servers to use with this vpn\n"
    ∷ "  -dns peer             use dns server list supplied by ppp based vpns\n"
    ∷ "  -nodns                do not use dns servers saved in vpn config\n"
    ∷ "  -ppp-auth             use ppp-chap authentication\n"
    ∷ "  -ppp-speed <speed>    linespeed/baud-rate for pppd\n"
    ∷ "  -id <string>          set a 'client id' string. Currently only used to set the ipparam of ppp-based networks in order to identify who/what is connecting and allow setting per-connection rules on the server.\n"
    ∷ "  -cid <string>         set a 'client id' string. Currently only used to set the ipparam of ppp-based networks in order to identify who/what is connecting and allow setting per-connection rules on the server.\n"
    ∷ "  -mtu <mtu>            mtu value for openvpn and ppp based vpns\n"
    ∷ "  -auth <config>        authentication config when running in SSL-server mode. This can have the values 'cert' to specify that a valid certificate is enough, 'system' to specify a valid certificate whose common name is a user in /etc/passwd, 'users:<list>' where <list> is a comma-separated list of usernames that one of which must match in addition to the certificate being valid, 'ips:<list>' where <list> is a comma-separated list of IPs that must match in addition to the certificate being valid and 'ip-only:<list>' which provides a list of IP addresses that can log on even if their certificate is invalid (e.g. certificate has expired\n"
    ∷ "  -verbose              output more info about what vpn_mgr is doing\n"
    ∷ "  -debug                spew lots of debugging info\n" ∷ "\n\n" ∷ []

unfoldable pub print_all : List String → M (Unit {0})
print_all [] = pure tt
print_all (text ∷ texts) = emit (print text) >> print_all texts

unfoldable pub print_help : M (Unit {0})
print_help = print_all help_texts
